-- ===== src/Game/Board/Deal.antt =====
-- AssignCards deals 9 red, 8 blue, 7 neutral cards and one assassin, face down, whatever the order
-- that the generator chooses.
use mathlib.Core.List.{Perm}
use codenames_cpp_vibecoding.Prelude.{
  ◌≡◌, refl, ◌∙◌, sym, arith, List, [], ◌∷◌, length, count_if, count_if-perm, length-perm, map,
}
use codenames_cpp_vibecoding.Text.{Bytes}
use codenames_cpp_vibecoding.Game.{
  Game, CardType, red_card, blue_card, neutral, assassin, max_cards,
}
use codenames_cpp_vibecoding.Game.Board.{deal, card_types, assign_cards}
use codenames_cpp_vibecoding.Game.Invariant.{same_card, face_up, in_deck}
use codenames_cpp_vibecoding.Game.Invariant.Deck.{IsDealt}

in_deck-deal :
    (t : CardType) (ws : List Bytes) (ts : List CardType)
    → length ws ≡ length ts
    → in_deck t (deal ws ts) ≡ count_if (λ u. same_card u t) ts
unfolding deal
in_deck-deal t [] [] h = refl
in_deck-deal t [] (u ∷ ts) h = absurd (omega arith)
in_deck-deal t (w ∷ ws) [] h = absurd (omega arith)
in_deck-deal t (w ∷ ws) (u ∷ ts) h = ground (arith, in_deck-deal t ws ts)

face_up-deal : (t : CardType) (ws : List Bytes) (ts : List CardType) → face_up t (deal ws ts) ≡ 0
unfolding deal
face_up-deal t [] ts = refl
face_up-deal t (w ∷ ws) [] = refl
face_up-deal t (w ∷ ws) (u ∷ ts) = face_up-deal t ws ts

length-deal :
    (ws : List Bytes) (ts : List CardType) → length ws ≡ length ts → length (deal ws ts) ≡ length ws
unfolding deal
length-deal [] ts h = refl
length-deal (w ∷ ws) [] h = absurd (omega arith)
length-deal (w ∷ ws) (u ∷ ts) h = ground (arith, length-deal ws ts)

words-deal :
    (ws : List Bytes) (ts : List CardType)
    → length ws ≡ length ts
    → map (λ c. c.word) (deal ws ts) ≡ ws
unfolding deal
words-deal [] ts h = refl
words-deal (w ∷ ws) [] h = absurd (omega arith)
words-deal (w ∷ ws) (u ∷ ts) h = ground (arith, words-deal ws ts)

module _ (shuffle : List CardType → List CardType)
    (shuffles : (ts : List CardType) → Perm ts (shuffle ts)) (g : Game)
    (full : length g.word_list ≡ max_cards) where
  length-shuffled : length g.word_list ≡ length (shuffle card_types)
  length-shuffled = full ∙ length-perm (shuffles card_types)

  dealt :
      (t : CardType)
      → in_deck t (assign_cards shuffle g).cards ≡ count_if (λ u. same_card u t) card_types
  unfolding assign_cards
  dealt t =
      in_deck-deal t g.word_list (shuffle card_types) length-shuffled
      ∙ sym (count_if-perm (λ u. same_card u t) (shuffles card_types))

  -- If `shuffle` only reorders and there are 25 words, AssignCards deals 9 red, 8 blue and 7 neutral
  -- cards and one assassin.
  pub assign_cards-IsDealt : IsDealt (assign_cards shuffle g)
  assign_cards-IsDealt = record {
    reds = dealt red_card;
    blues = dealt blue_card;
    neutrals = dealt neutral;
    assassins = dealt assassin;
  }

  pub length-assign_cards : length (assign_cards shuffle g).cards ≡ max_cards
  unfolding assign_cards
  length-assign_cards = length-deal g.word_list _ length-shuffled ∙ full

  pub assign_cards_words : map (λ c. c.word) (assign_cards shuffle g).cards ≡ g.word_list
  unfolding assign_cards
  assign_cards_words = words-deal g.word_list _ length-shuffled

pub assign_cards_face_down :
    (t : CardType) (shuffle : List CardType → List CardType) (g : Game)
    → face_up t (assign_cards shuffle g).cards ≡ 0
unfolding assign_cards
assign_cards_face_down t shuffle g = face_up-deal t g.word_list _
