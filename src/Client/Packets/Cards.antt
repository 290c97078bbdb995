-- ===== src/Client/Packets/Cards.antt =====
-- ALL_CARDS: the board of the server as the client reads it.
use codenames_cpp_vibecoding.Prelude.{
  ℕ, suc, ◌+◌, ◌*◌, ◌≡◌, refl, ◌∙◌, sym, subst, ap, arith, Bool, true, false, List, [], ◌∷◌, ◌++◌,
  map, some, ℤ, pos, get_elem?, All, length,
}
use mathlib.Core.List.{append-nil, append_assoc}
use codenames_cpp_vibecoding.Text.{Bytes, pipe, is_empty, to_string_ℕ, stoi}
use codenames_cpp_vibecoding.Text.Fields.{Lacks}
use codenames_cpp_vibecoding.Text.Numbers.{Number, to_string_ℕ-Number}
use codenames_cpp_vibecoding.Protocol.{packet, fields, pkt_all_cards}
use codenames_cpp_vibecoding.Game.{
  Game, GameCard, CardType, red_card, blue_card, neutral, assassin, card_type_num, max_cards,
}
use codenames_cpp_vibecoding.Game.Broadcast.{all_cards_message, card_fields, flag}
use codenames_cpp_vibecoding.Client.{ClientCard, GameState, Client, Notice, eq_ℤ}
use codenames_cpp_vibecoding.Client.Fields.{parse_field}
use codenames_cpp_vibecoding.Client.Fields.Reading.{join, AllLack, parse_field_at}
use codenames_cpp_vibecoding.Client.Packets.{read_cards, handle_all_cards}
use codenames_cpp_vibecoding.Client.Packets.Dispatch.{process_packet}
use codenames_cpp_vibecoding.Client.Packets.Effects.{update_cards_state}
use codenames_cpp_vibecoding.Client.Packets.Messages.{process_packet-all_cards}
use codenames_cpp_vibecoding.Client.Packets.Updates.{flag-Number}

-- A card of the server as the client keeps it.
unfoldable pub shown : GameCard → ClientCard
shown c = record {
  word = c.word;
  is_revealed = c.is_used;
  card_type = pos (card_type_num c.card_type);
}

-- The word can be sent as a field.
abbrev pub IsSendable : GameCard → Type 0
IsSendable c = (is_empty c.word ≡ false) × Lacks pipe c.word

-- The fields of ALL_CARDS.
abbrev pub flat : List GameCard → List Bytes
flat [] = []
flat (c ∷ cs) =
    c.word ∷ to_string_ℕ (card_type_num c.card_type) ∷ to_string_ℕ (flag c.is_used) ∷ flat cs

pub fields-append : (fs gs : List Bytes) → fields (fs ++ gs) ≡ fields fs ++ fields gs
unfolding fields
fields-append [] gs = refl
fields-append (f ∷ fs) gs =
    ap (λ (s : Bytes). pipe ∷ s)
      (ap (λ (s : Bytes). f ++ s) (fields-append fs gs)
        ∙ sym (append_assoc f (fields fs) (fields gs)))

card_fields-flat : (cs : List GameCard) → card_fields cs ≡ fields (flat cs)
unfolding card_fields fields
card_fields-flat [] = refl
card_fields-flat (c ∷ cs) =
    ap (λ (s : Bytes). fields one ++ s) (card_fields-flat cs) ∙ sym (fields-append one (flat cs))
  where
    one : List Bytes
    one = c.word ∷ to_string_ℕ (card_type_num c.card_type) ∷ to_string_ℕ (flag c.is_used) ∷ []

type-Number : (t : CardType) → Number (to_string_ℕ (card_type_num t)) (pos (card_type_num t))
unfolding card_type_num
type-Number red_card = to_string_ℕ-Number 1 (omega arith)
type-Number blue_card = to_string_ℕ-Number 2 (omega arith)
type-Number neutral = to_string_ℕ-Number 3 (omega arith)
type-Number assassin = to_string_ℕ-Number 4 (omega arith)

flat-AllLack : (cs : List GameCard) → All IsSendable cs → AllLack (flat cs)
flat-AllLack [] s = tt
flat-AllLack (c ∷ cs) s =
    (s.0.1, ((type-Number c.card_type).clean, ((flag-Number c.is_used).clean, flat-AllLack cs s.1)))

eq_ℤ-flag : (b : Bool) → eq_ℤ (pos (flag b)) (pos 1) ≡ b
unfolding flag
eq_ℤ-flag true = refl
eq_ℤ-flag false = refl

read_cards_next :
    (whole : Bytes) (n i : ℕ) (cards : List ClientCard) (t u : ℤ)
    → is_empty (parse_field whole (i * 3)) ≡ false
    → stoi (parse_field whole (i * 3 + 1)) ≡ some t
    → stoi (parse_field whole (i * 3 + 2)) ≡ some u
    → let card : ClientCard = record {
      word = parse_field whole (i * 3);
      is_revealed = eq_ℤ u (pos 1);
      card_type = t;
    } in
      read_cards whole (suc n) i cards ≡ read_cards whole n (suc i) (cards ++ card ∷ [])
unfolding read_cards
read_cards_next whole n i cards t u full type used = rw (full, type, used, read_cards) refl

-- The fields of the cards from `i` on are those of `rest`.
read_cards-flat :
    (whole : Bytes) (rest : List GameCard) (i : ℕ) (cards : List ClientCard)
    → ((j : ℕ) (f : Bytes) → get_elem? (flat rest) j ≡ some f → parse_field whole (i * 3 + j) ≡ f)
    → All IsSendable rest
    → read_cards whole (length rest) i cards ≡ some (cards ++ map shown rest)
unfolding shown read_cards
read_cards-flat whole [] i cards at s = ap some (sym (append-nil cards))
read_cards-flat whole (c ∷ rest) i cards at s =
    let start : i * 3 ≡ i * 3 + 0 = omega arith in
    let word = ap (parse_field whole) start ∙ at 0 c.word refl in
    let number =
      λ (n : ℤ) (j : ℕ) (f : Bytes) (e : get_elem? (flat (c ∷ rest)) j ≡ some f) (v : Number f n).
        ap stoi (at j f e) ∙ v.reads in
    read_cards_next whole (length rest) i cards _ _ (ap is_empty word ∙ s.0.0)
      (number _ 1 _ refl (type-Number c.card_type)) (number _ 2 _ refl (flag-Number c.is_used))
    ∙ (λ k. read_cards whole (length rest) (suc i) (
        cards
        ++ (record {
          word = word k;
          is_revealed = eq_ℤ-flag c.is_used k;
          card_type = pos (card_type_num c.card_type);
        })
          ∷ []))
    ∙ read_cards-flat whole rest (suc i) (cards ++ shown c ∷ []) behind s.1
    ∙ ap some (append_assoc cards (shown c ∷ []) (map shown rest))
  where
    shift : (j : ℕ) → suc i * 3 + j ≡ i * 3 + suc (suc (suc j))
    shift j = omega arith

    behind :
        (j : ℕ) (f : Bytes)
        → get_elem? (flat rest) j ≡ some f
        → parse_field whole (suc i * 3 + j) ≡ f
    behind j f e = ap (parse_field whole) (shift j) ∙ at (suc (suc (suc j))) f e

zero_plus : (j : ℕ) → 0 * 3 + j ≡ j
zero_plus j = omega arith

module _ {O : Type 0} (on : Notice → GameState → O → O) where
  handle_all_cards-flat :
      (cs : List GameCard) (c : Client O)
      → length cs ≡ max_cards
      → All IsSendable cs
      → (handle_all_cards on (join (flat cs)) c).state ≡ record (c.state) { cards = map shown cs }
  unfolding handle_all_cards
  handle_all_cards-flat cs c n s =
      let start =
        read_cards-flat (join (flat cs)) cs 0 []
          (λ j f e.
            ap (parse_field (join (flat cs))) (zero_plus j)
            ∙ parse_field_at (flat cs) j f e (flat-AllLack cs s))
          s in
      let read =
        subst (λ (k : ℕ). read_cards (join (flat cs)) k 0 [] ≡ some (map shown cs)) n start in
      rw (read, handle_all_cards) (update_cards_state on (map shown cs) c)

  -- ALL_CARDS brings the board to the client card by card, with each word, type and mark, and changes
  -- nothing else there, if the board has its 25 cards and no word is empty or has a delimiter.
  pub board-shown :
      (g : Game) (c : Client O)
      → length g.cards ≡ max_cards
      → All IsSendable g.cards
      → (process_packet on (all_cards_message g) c).state
        ≡ record (c.state) { cards = map shown g.cards }
  unfolding all_cards_message packet
  board-shown g c n s = by_cards g.cards n s
    where
      by_cards :
          (cs : List GameCard)
          → length cs ≡ max_cards
          → All IsSendable cs
          → (process_packet on (pkt_all_cards ++ card_fields cs) c).state
            ≡ record (c.state) { cards = map shown cs }
      by_cards [] n s = absurd (omega arith)
      by_cards (k ∷ cs) n s =
          ap (λ (m : Bytes). (process_packet on (pkt_all_cards ++ m) c).state)
            (card_fields-flat (k ∷ cs))
          ∙ ap (λ (d : Client O). d.state)
              (process_packet-all_cards on k.word
                (to_string_ℕ (card_type_num k.card_type) ∷ to_string_ℕ (flag k.is_used) ∷ flat cs)
                c)
          ∙ handle_all_cards-flat (k ∷ cs) c n s
