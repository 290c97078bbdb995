-- ===== src/Game/Invariant/Deck.antt =====
-- The deck is fixed: no packet changes the word or the type of a card, and none turns a card back.
-- With the 9, 8, 7 and 1 cards of a deal this bounds the scores and tells how a game can end.
use codenames_cpp_vibecoding.Prelude.{
  ℕ, zero, suc, ◌≤◌, ◌≡◌, ◌↔◌, refl, ◌∙◌, arith, true, List, [], ◌∷◌, ◌⊎◌, inl, inr, ℤ, some,
  get_elem?, set,
}
use codenames_cpp_vibecoding.Text.{Bytes}
use codenames_cpp_vibecoding.Game.{
  Game, GameCard, CardType, red_card, blue_card, neutral, assassin, red_cards, blue_cards,
  neutral_cards, assassin_cards,
}
use codenames_cpp_vibecoding.Game.Turns.{phased, turned}
use codenames_cpp_vibecoding.Game.Cards.{reveal}
use codenames_cpp_vibecoding.Game.Play.{hinted}
use codenames_cpp_vibecoding.Game.Play.Answer.{concluded, find_card-some}
use codenames_cpp_vibecoding.Game.Play.Packets.{hints, reveals, Move}
use codenames_cpp_vibecoding.Game.Invariant.{Inv, face_up, in_deck}
use codenames_cpp_vibecoding.Game.Invariant.Histories.{
  Packet, receive, play, receive-Move, play-Inv,
}

-- One card before and after: the same card, and not turned back.
abbrev Kept : GameCard → GameCard → Type 0
Kept c d = (d.word ≡ c.word) × (d.card_type ≡ c.card_type) × (c.is_used ≡ true → d.is_used ≡ true)

-- Card by card.
abbrev pub SameDeck : List GameCard → List GameCard → Type 0
SameDeck [] [] = Unit {0}
SameDeck [] (d ∷ ds) = ⊥
SameDeck (c ∷ cs) [] = ⊥
SameDeck (c ∷ cs) (d ∷ ds) = Kept c d × SameDeck cs ds

SameDeck-refl : (cs : List GameCard) → SameDeck cs cs
SameDeck-refl [] = tt
SameDeck-refl (c ∷ cs) = ((refl, refl, λ u. u), SameDeck-refl cs)

SameDeck-trans : (cs ds es : List GameCard) → SameDeck cs ds → SameDeck ds es → SameDeck cs es
SameDeck-trans [] [] [] p q = tt
SameDeck-trans [] [] (e ∷ es) p q = elim q [ ]
SameDeck-trans [] (d ∷ ds) es p q = elim p [ ]
SameDeck-trans (c ∷ cs) [] es p q = elim p [ ]
SameDeck-trans (c ∷ cs) (d ∷ ds) [] p q = elim q [ ]
SameDeck-trans (c ∷ cs) (d ∷ ds) (e ∷ es) p q =
    ((q.0.0 ∙ p.0.0, q.0.1 ∙ p.0.1, λ u. q.0.2 (p.0.2 u)), SameDeck-trans cs ds es p.1 q.1)

SameDeck-set :
    (cs : List GameCard) (i : ℕ) (c : GameCard)
    → get_elem? cs i ≡ some c
    → SameDeck cs (set cs i (record c { is_used = true }))
SameDeck-set [] i c e = tt
SameDeck-set (d ∷ cs) zero c e = ((ground arith, ground arith, λ u. refl), SameDeck-refl cs)
SameDeck-set (d ∷ cs) (suc i) c e = ((refl, refl, λ u. u), SameDeck-set cs i c e)

concluded_cards :
    (t : CardType) (g : Game) (i : ℕ) (c : GameCard)
    → c.card_type ≡ t
    → (concluded (reveal i c g)).cards ≡ set g.cards i (record c { is_used = true })
unfolding concluded reveal turned
concluded_cards red_card g i c k = ground arith
concluded_cards _ g i c k = ground arith

hint_cards : (word : Bytes) (n : ℤ) (g : Game) → (phased (hinted word n g)).cards ≡ g.cards
unfolding phased hinted
hint_cards word n g = refl

Move-SameDeck : {g h : Game} → Move g h → SameDeck g.cards h.cards
Move-SameDeck (inl e) = rw e (SameDeck-refl _)
Move-SameDeck {g} (inr (hints n p word number here leads to_move phase live e)) =
    rw (e, hint_cards word number g) (SameDeck-refl _)
Move-SameDeck {g} (inr (reveals n p word i c here guesses to_move phase tries live found e)) =
    let (at, same, down) = find_card-some word g.cards i c found in
    rw (e, concluded_cards c.card_type g i c refl) (SameDeck-set g.cards i c at)

-- Whatever packets arrive, every card keeps its word and its type, and a card that is face up
-- stays so.
pub play-SameDeck : (es : List Packet) (g : Game) → SameDeck g.cards (play es g).cards
unfolding play
play-SameDeck [] g = SameDeck-refl g.cards
play-SameDeck (e ∷ es) g =
    SameDeck-trans g.cards _ _ (Move-SameDeck (receive-Move e g)) (play-SameDeck es (receive e g))

in_deck-SameDeck :
    (t : CardType) (cs ds : List GameCard) → SameDeck cs ds → in_deck t ds ≡ in_deck t cs
in_deck-SameDeck t [] [] s = refl
in_deck-SameDeck t [] (d ∷ ds) s = elim s [ ]
in_deck-SameDeck t (c ∷ cs) [] s = elim s [ ]
in_deck-SameDeck t (c ∷ cs) (d ∷ ds) s = rw s.0.1 (ground (arith, in_deck-SameDeck t cs ds s.1))

-- Not more cards of a type are face up than there are.
face_up-le-in_deck : (t : CardType) (cs : List GameCard) → face_up t cs ≤ in_deck t cs
face_up-le-in_deck t [] = omega arith
face_up-le-in_deck t (c ∷ cs) = ground (arith, face_up-le-in_deck t cs)

-- The deck of a deal.
pub record IsDealt (g : Game) : Type 0 where
  pub reds : in_deck red_card g.cards ≡ red_cards
  pub blues : in_deck blue_card g.cards ≡ blue_cards
  pub neutrals : in_deck neutral g.cards ≡ neutral_cards
  pub assassins : in_deck assassin g.cards ≡ assassin_cards

-- From a dealt game with the invariant, whatever packets arrive: the scores are at most 9 and 8,
-- and the game is over exactly when the red score is 9, the blue score is 8, or the assassin is
-- face up.
pub play_outcome :
    (es : List Packet) (g : Game)
    → Inv g
    → IsDealt g
    → let h = play es g in
      (h.red_score ≤ red_cards)
      × (h.blue_score ≤ blue_cards)
      × ((h.game_over ≡ true) ↔ (
          (h.red_score ≡ red_cards) ⊎ (h.blue_score ≡ blue_cards) ⊎ (face_up assassin h.cards ≡ 1)))
play_outcome es g v d = ground (
  arith,
  play-Inv es g v,
  play-SameDeck es g,
  in_deck-SameDeck red_card g.cards (play es g).cards (play-SameDeck es g),
  in_deck-SameDeck blue_card g.cards (play es g).cards (play-SameDeck es g),
  in_deck-SameDeck assassin g.cards (play es g).cards (play-SameDeck es g),
  face_up-le-in_deck red_card (play es g).cards,
  face_up-le-in_deck blue_card (play es g).cards,
  face_up-le-in_deck assassin (play es g).cards,
)
