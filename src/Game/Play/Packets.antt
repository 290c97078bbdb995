-- ===== src/Game/Play/Packets.antt =====
-- Every packet is one move of the game by its rules, or leaves the game as it is.
use codenames_cpp_vibecoding.Prelude.{
  ℕ, ◌≡◌, refl, ◌∙◌, ap, arith, false, ◌||◌, Option, none, some, get_elem?, ℤ, is_nonpos,
  Bool-cases, Option-cases, inl, inr, ◌⊎◌,
}
use codenames_cpp_vibecoding.Text.{Bytes, is_empty}
use codenames_cpp_vibecoding.Game.{
  Game, GameCard, GamePlayer, Room, agent, spymaster, hint_phase, guess_phase,
}
use codenames_cpp_vibecoding.Game.Roster.{slot, find_player_index}
use codenames_cpp_vibecoding.Game.Broadcast.Delivery.{broadcast_game}
use codenames_cpp_vibecoding.Game.Turns.{phased}
use codenames_cpp_vibecoding.Game.Turns.Ending.{switch_phase_game}
use codenames_cpp_vibecoding.Game.Cards.{find_card, reveal}
use codenames_cpp_vibecoding.Game.Requests.{
  Request, hint, bad_hint, answer, chat, unknown, parse_request,
}
use codenames_cpp_vibecoding.Game.Play.{
  is_valid_player_for_hint, is_valid_player_for_answer, hinted, process_hint, player_name,
  refuse_word, process_answer, process_chat, chat_from, chat_message, perform, is_missing,
  handle_game_packet,
}
use codenames_cpp_vibecoding.Game.Play.Guards.{valid_hint, valid_answer}
use codenames_cpp_vibecoding.Game.Play.Answer.{concluded, answer_card_game}

-- The rules of the game. A spymaster of the team to move gives a hint in the hint phase; an agent
-- of the team to move turns over the first face-down card with the word, in the guess phase and
-- with a try left. Neither is possible when the game is over.
pub data Rule (g : Game) : Game → Type 0 where
  hints :
      (n : ℕ) (p : GamePlayer) (word : Bytes) (number : ℤ) {h : Game}
      → get_elem? g.players n ≡ some p
      → p.role ≡ spymaster
      → p.team ≡ g.current_turn
      → g.current_phase ≡ hint_phase
      → g.game_over ≡ false
      → h ≡ phased (hinted word number g)
      → Rule g h
  reveals :
      (n : ℕ) (p : GamePlayer) (word : Bytes) (i : ℕ) (c : GameCard) {h : Game}
      → get_elem? g.players n ≡ some p
      → p.role ≡ agent
      → p.team ≡ g.current_turn
      → g.current_phase ≡ guess_phase
      → is_nonpos g.remaining_tries ≡ false
      → g.game_over ≡ false
      → find_card word g.cards ≡ some (i, c)
      → h ≡ concluded (reveal i c g)
      → Rule g h

-- One packet: a move by the rules, or nothing.
abbrev pub Move : Game → Game → Type 0
Move g h = (h ≡ g) ⊎ Rule g h

process_hint-Move :
    (i : ℤ) (word : Bytes) (n : ℤ) (r : Room) → Move r.game (process_hint i word n r).0.game
unfolding process_hint
process_hint-Move i word n r = elim (Bool-cases (is_valid_player_for_hint i r.game r.world)) [
  | inl e ↦
      let m = valid_hint i r.game r.world e in
      let (k, at, below, here, f) = m.seated in
      inr (
        hints k m.player word n here m.leads m.to_move m.phase m.running
          (rw (e, process_hint) (switch_phase_game _ ∙ ap phased (broadcast_game _ _))))
  | inr e ↦ inl (rw (e, process_hint))
]

pub refuse_word_game : (i : ℤ) (word : Bytes) (r : Room) → (refuse_word i word r).game ≡ r.game
unfolding refuse_word
refuse_word_game i word r = ground arith

process_answer-Move :
    (i : ℤ) (word : Bytes) (r : Room) → Move r.game (process_answer i word r).0.game
unfolding process_answer
process_answer-Move i word r = elim (Bool-cases (is_valid_player_for_answer i r.game r.world)) [
  | inl e ↦
      let m = valid_answer i r.game r.world e in
      let (n, at, below, here, f) = m.seated in
      elim (Option-cases (find_card word r.game.cards)) [
        | inl missing ↦ inl (rw (e, missing, process_answer) (refuse_word_game i word r))
        | inr ((k, c), found) ↦ inr (
            reveals n m.player word k c here m.guesses m.to_move m.phase m.tries m.running found
              (rw (e, found, process_answer) (answer_card_game (player_name i r) k c r)))
      ]
  | inr e ↦ inl (rw (e, process_answer))
]

chat_from_game :
    (i : ℤ) (m : Bytes) (r : Room) (p : GamePlayer) → (chat_from i m r p).0.game ≡ r.game
unfolding chat_from
chat_from_game i m r p = elim (Option-cases p.session) [
  | inl e ↦ rw (e, chat_from)
  | inr (s, e) ↦
      rw (e, chat_from)
        (ground (arith, broadcast_game (chat_message p i (r.world.sessions s).username m) r))
]

pub process_chat_game : (i : ℤ) (m : Bytes) (r : Room) → (process_chat i m r).0.game ≡ r.game
unfolding process_chat
process_chat_game i m r = elim (Option-cases (slot r.game i)) [
  | inl e ↦ rw (e, process_chat) (ground arith)
  | inr (p, e) ↦ rw (e, process_chat) (ground (arith, chat_from_game i m r p))
]

perform-Move : (i : ℤ) (q : Request) (r : Room) → Move r.game (perform i q r).game
unfolding perform
perform-Move i (hint word n) r = process_hint-Move i word n r
perform-Move i bad_hint r = inl refl
perform-Move i (answer word) r = process_answer-Move i word r
perform-Move i (chat m) r = inl (process_chat_game i m r)
perform-Move i unknown r = inl refl

-- Whatever bytes arrive from whatever session, the game makes one move by the rules or stays.
pub handle_game_packet-Move :
    (s : Option ℕ) (d : Bytes) (r : Room) → Move r.game (handle_game_packet s d r).game
unfolding handle_game_packet
handle_game_packet-Move none d r = inl refl
handle_game_packet-Move (some s) d r =
    let i = find_player_index (r.world.sessions s).username r.game r.world in
    elim (Bool-cases ((r.world.sessions s).is_closed || is_empty d)) [
      | inl e ↦ inl (rw (e, handle_game_packet))
      | inr e ↦
          rw (e, handle_game_packet)
            (elim (Bool-cases (is_missing i)) [
              | inl f ↦ rw f (inl refl)
              | inr f ↦ rw f (perform-Move i (parse_request d) r)
            ])
    ]
