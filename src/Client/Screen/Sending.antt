-- ===== src/Client/Screen/Sending.antt =====
-- What the game screen sends to the server, and what the server makes of it.
use codenames_cpp_vibecoding.Prelude.{
  ℕ, zero, suc, ◌≡◌, refl, ◌∙◌, sym, ap, arith, Bool, true, false, not, ◌&&◌, List, [], ◌∷◌, ◌++◌,
  map, Option, none, some, Bool-cases, Option-cases, inl, inr, All, ℤ, pos, negsuc, get_elem?,
}
use mathlib.Core.List.{append-nil, append_assoc}
use codenames_cpp_vibecoding.Text.{Bytes, is_empty, bytes_eq, to_string, stoi}
use codenames_cpp_vibecoding.Text.Fields.{bytes_eq_sound}
use codenames_cpp_vibecoding.Protocol.{packet, pkt_hint_msg, pkt_answer, pkt_chat}
use codenames_cpp_vibecoding.Game.{Game, GameCard}
use codenames_cpp_vibecoding.Game.Cards.{is_open, find_card}
use codenames_cpp_vibecoding.Game.Requests.{answer, parse_request}
use codenames_cpp_vibecoding.Game.Requests.Reading.{parse_request-packet}
use codenames_cpp_vibecoding.Client.{ClientCard, GameState}
use codenames_cpp_vibecoding.Client.Packets.Cards.{shown}
use codenames_cpp_vibecoding.Client.Mirror.{Mirrors}
use codenames_cpp_vibecoding.Client.Screen.{
  InputMode, no_input, input_hint_word, input_hint_count, input_answer, input_chat, InputEvent,
  key_char, key_backspace, key_enter, key_esc, key_tab, Screen, has_card, hint_counted, complete_in,
  provide_hint, send_chat_message, process_completed_input, is_typing, handle_input_event,
  process_input_events, update_input_mode,
}

-- The packets that the screen may send.
pub data Sends (g : GameState) : Bytes → Type 0 where
  sends_hint :
      {p : Bytes} (word : Bytes) (n : ℕ)
      → p ≡ packet pkt_hint_msg (word ∷ to_string (pos (suc n)) ∷ [])
      → Sends g p
  sends_answer :
      {p : Bytes} (i : ℕ) (c : ClientCard)
      → get_elem? g.cards i ≡ some c
      → c.is_revealed ≡ false
      → p ≡ packet pkt_answer (c.word ∷ [])
      → Sends g p
  sends_chat :
      {p : Bytes} (m : Bytes) → is_empty m ≡ false → p ≡ packet pkt_chat (m ∷ []) → Sends g p

-- Some packets are sent, all of them of this kind.
abbrev pub SendsMore : GameState → List Bytes → List Bytes → Type 0
SendsMore g before after = (ps : List Bytes) × (after ≡ before ++ ps) × All (Sends g) ps

nothing : (g : GameState) (before after : List Bytes) → after ≡ before → SendsMore g before after
nothing g before after e = ([], e ∙ sym (append-nil before), tt)

has_card-some :
    (word : Bytes) (cs : List ClientCard)
    → has_card word cs ≡ true
    → (i : ℕ) × (c : ClientCard) × (get_elem? cs i ≡ some c)
      × (c.is_revealed ≡ false)
      × (c.word ≡ word)
unfolding has_card
has_card-some word [] h = cc
has_card-some word (c ∷ cs) h = elim (Bool-cases (not c.is_revealed && bytes_eq c.word word)) [
  | inl e ↦ (0, c, refl, ground arith, bytes_eq_sound c.word word (ground arith))
  | inr e ↦
      let (i, d, at, down, same) = has_card-some word cs (ground arith) in
      (suc i, d, at, down, same)
]

hint_counted-Sends :
    (g : GameState) (o : Option ℤ) (s : Screen) → SendsMore g s.sent (hint_counted o s).sent
unfolding hint_counted provide_hint
hint_counted-Sends g none s = nothing g s.sent _ refl
hint_counted-Sends g (some (negsuc n)) s = nothing g s.sent _ refl
hint_counted-Sends g (some (pos zero)) s = nothing g s.sent _ refl
hint_counted-Sends g (some (pos (suc n))) s = (_, refl, (sends_hint s.hint_word n refl, tt))

complete_in-Sends :
    (m : InputMode) (g : GameState) (s : Screen)
    → is_empty s.input_buffer ≡ false
    → SendsMore g s.sent (complete_in m g s).sent
unfolding complete_in send_chat_message
complete_in-Sends no_input g s full = nothing g s.sent _ refl
complete_in-Sends input_hint_word g s full = nothing g s.sent _ refl
complete_in-Sends input_hint_count g s full = hint_counted-Sends g (stoi s.input_buffer) s
complete_in-Sends input_answer g s full = elim (Bool-cases (has_card s.input_buffer g.cards)) [
  | inl e ↦
      let (i, c, at, down, same) = has_card-some s.input_buffer g.cards e in
      rw (e, complete_in)
        (
          _,
          refl,
          (
            sends_answer i c at down (ap (λ (w : Bytes). packet pkt_answer (w ∷ [])) (sym same)),
            tt,
          ),
        )
  | inr e ↦ rw (e, complete_in) (nothing g s.sent _ refl)
]
complete_in-Sends input_chat g s full = (_, refl, (sends_chat s.input_buffer full refl, tt))

handle_input_event-Sends :
    (g : GameState) (e : InputEvent) (s : Screen)
    → SendsMore g s.sent (handle_input_event g e s).sent
unfolding handle_input_event process_completed_input update_input_mode
handle_input_event-Sends g key_esc s = nothing g s.sent _ (ground arith)
handle_input_event-Sends g key_tab s = nothing g s.sent _ (ground arith)
handle_input_event-Sends g key_backspace s = nothing g s.sent _ (ground arith)
handle_input_event-Sends g (key_char c) s = nothing g s.sent _ (ground arith)
handle_input_event-Sends g key_enter s = elim (Bool-cases (is_typing s.input_mode)) [
  | inr e ↦ rw (e, handle_input_event) (nothing g s.sent _ refl)
  | inl e ↦ elim (Bool-cases (is_empty s.input_buffer)) [
    | inl e2 ↦ rw (e, e2, handle_input_event, process_completed_input) (nothing g s.sent _ refl)
    | inr e2 ↦
        rw (e, e2, handle_input_event, process_completed_input)
          (complete_in-Sends s.input_mode g s e2)
  ]
]

-- Whatever is typed, the screen sends only hints with a positive number, words of cards that are
-- face down, and chat messages that are not empty.
pub process_input_events-Sends :
    (g : GameState) (es : List InputEvent) (s : Screen)
    → SendsMore g s.sent (process_input_events g es s).sent
unfolding process_input_events
process_input_events-Sends g [] s = nothing g s.sent _ refl
process_input_events-Sends g (e ∷ es) s =
    let (ps, first, some_sent) = handle_input_event-Sends g e s in
    let (qs, later, rest_sent) = process_input_events-Sends g es (handle_input_event g e s) in
    (
      ps ++ qs,
      later ∙ ap (λ (xs : List Bytes). xs ++ qs) first ∙ append_assoc s.sent ps qs,
      All-append ps qs some_sent rest_sent,
    )
  where
    All-append :
        (ps qs : List Bytes) → All (Sends g) ps → All (Sends g) qs → All (Sends g) (ps ++ qs)
    All-append [] qs a b = b
    All-append (p ∷ ps) qs a b = (a.0, All-append ps qs a.1 b)

is_found : Option (ℕ × GameCard) → Bool
is_found none = false
is_found (some k) = true

-- The client and the server look for a card in the same way.
has_card-find_card :
    (word : Bytes) (cs : List GameCard)
    → has_card word (map shown cs) ≡ is_found (find_card word cs)
unfolding has_card find_card is_open shown is_found
has_card-find_card word [] = refl
has_card-find_card word (c ∷ cs) = ground (arith, has_card-find_card word cs)

-- The word that is sent if the server has a card for it.
abbrev pub if_found : Option (ℕ × GameCard) → Bytes → List Bytes
if_found none p = []
if_found (some k) p = p ∷ []

complete_answer :
    (g : Game) (st : GameState) (s : Screen)
    → st.cards ≡ map shown g.cards
    → (complete_in input_answer st s).sent
      ≡ s.sent
        ++ if_found (find_card s.input_buffer g.cards) (packet pkt_answer (s.input_buffer ∷ []))
unfolding complete_in is_found
complete_answer g st s e =
    let same = ap (has_card s.input_buffer) e ∙ has_card-find_card s.input_buffer g.cards in
    elim (Option-cases (find_card s.input_buffer g.cards)) [
      | inl f ↦ rw (same, f, complete_in) (sym (append-nil s.sent))
      | inr (k, f) ↦ rw (same, f, complete_in) refl
    ]

entered :
    (st : GameState) (s : Screen)
    → is_typing s.input_mode ≡ true
    → is_empty s.input_buffer ≡ false
    → (handle_input_event st key_enter s).sent ≡ (complete_in s.input_mode st s).sent
unfolding handle_input_event process_completed_input
entered st s typing full = rw (typing, full, handle_input_event, process_completed_input) refl

-- At a client that shows the game as it is on the server, a word that is entered as an answer is sent
-- exactly if the server's search finds a card for it, and the server reads the packet as an answer
-- with this word.
pub typed_answer-find_card :
    (g : Game) (st : GameState) (s : Screen)
    → Mirrors g st
    → s.input_mode ≡ input_answer
    → is_empty s.input_buffer ≡ false
    → ((handle_input_event st key_enter s).sent
        ≡ s.sent
          ++ if_found (find_card s.input_buffer g.cards) (packet pkt_answer (s.input_buffer ∷ [])))
      × (parse_request (packet pkt_answer (s.input_buffer ∷ [])) ≡ answer s.input_buffer)
typed_answer-find_card g st s m mode full = (
  entered st s (ap is_typing mode) full
      ∙ ap (λ (i : InputMode). (complete_in i st s).sent) mode
      ∙ complete_answer g st s m.cards,
  (parse_request-packet [] s.input_buffer (pos 0) tt (omega arith)).1,
)
