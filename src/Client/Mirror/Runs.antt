-- ===== src/Client/Mirror/Runs.antt =====
-- A whole game at the clients, from StartGame on.
use codenames_cpp_vibecoding.Prelude.{
  ℕ, ◌≡◌, ◌∙◌, sym, subst, ap, arith, not, ◌||◌, List, [], Option, none, some, ℤ, Bool-cases,
  Option-cases, inl, inr, All, map, count_if-le-length,
}
use codenames_cpp_vibecoding.Text.{Bytes, is_empty, split_at, pipe, stoi}
use codenames_cpp_vibecoding.Text.Decimal.{IsInt}
use codenames_cpp_vibecoding.Text.Numbers.{stoi-IsInt}
use codenames_cpp_vibecoding.Protocol.{payload, pkt_hint_msg, pkt_answer, pkt_chat}
use codenames_cpp_vibecoding.Session.{Session}
use mathlib.Core.List.{Perm}
use codenames_cpp_vibecoding.Session.Sending.{Fits}
use codenames_cpp_vibecoding.Game.{Game, Room, CardType, red_card, blue_card, new_game, max_players}
use codenames_cpp_vibecoding.Game.Start.{start_game, initialize_game, reset, vacate}
use codenames_cpp_vibecoding.Game.Start.Opening.{started_game, start_game-Inv}
use codenames_cpp_vibecoding.Client.Packets.Cards.{IsSendable}
use codenames_cpp_vibecoding.Client.Mirror.Start.{start_game-Synced}
use codenames_cpp_vibecoding.Game.Broadcast.{all_cards_message}
use codenames_cpp_vibecoding.Game.Broadcast.Delivery.{broadcast_game}
use codenames_cpp_vibecoding.Game.Roster.{find_player_index, get_player_count}
use codenames_cpp_vibecoding.Game.Turns.{check_winner, turned, phased}
use codenames_cpp_vibecoding.Game.Turns.Ending.{switch_phase_game}
use codenames_cpp_vibecoding.Game.Cards.{Verdict, reveal, find_card}
use codenames_cpp_vibecoding.Game.Requests.{
  parse_hint, Request, hint, bad_hint, answer, chat, unknown, parse_request,
}
use codenames_cpp_vibecoding.Game.Play.{
  is_system, hinted, process_hint, process_answer, perform, is_missing, handle_game_packet,
  is_valid_player_for_hint, is_valid_player_for_answer, player_name,
}
use codenames_cpp_vibecoding.Game.Play.Answer.{concluded, answer_card_game}
use codenames_cpp_vibecoding.Game.Play.Guards.{valid_answer}
use codenames_cpp_vibecoding.Game.Play.Packets.{
  refuse_word_game, process_chat_game, handle_game_packet-Move,
}
use codenames_cpp_vibecoding.Game.Invariant.{Inv, is_face_up}
use codenames_cpp_vibecoding.Game.Invariant.Histories.{Move-Inv}
use codenames_cpp_vibecoding.Client.{GameState, Client, Notice}
use codenames_cpp_vibecoding.Client.Mirror.{Listens, Synced}
use codenames_cpp_vibecoding.Client.Mirror.Answers.{reveal-Revealed}
use codenames_cpp_vibecoding.Client.Mirror.Games.{InRange, handle_game_packet-Synced}

parse_hint-IsInt : (params word : Bytes) (n : ℤ) → parse_hint params ≡ some (word, n) → IsInt n
unfolding parse_hint
parse_hint-IsInt params word n e = elim (Option-cases (split_at pipe params)) [
  | inl f ↦ absurd (ground (arith, e, f))
  | inr ((w, number), f) ↦ elim (Option-cases (stoi number)) [
    | inl q ↦ absurd (ground (arith, e, f, q))
    | inr (k, q) ↦
        let same : k ≡ n = ground (arith, e, f, q) in subst IsInt same (stoi-IsInt number k q)
  ]
]

-- The number of a hint is an `int`.
abbrev HasInt : Request → Type 0
HasInt (hint word n) = IsInt n
HasInt _ = Unit

parse_request-HasInt : (d : Bytes) → HasInt (parse_request d)
unfolding parse_request
parse_request-HasInt d = elim (Option-cases (payload pkt_hint_msg d)) [
  | inr (params, e) ↦ elim (Option-cases (parse_hint params)) [
    | inl f ↦ rw (e, f, parse_request) tt
    | inr ((word, n), f) ↦ rw (e, f, parse_request) (parse_hint-IsInt params word n f)
  ]
  | inl e ↦ elim (Option-cases (payload pkt_answer d)) [
    | inr (word, f) ↦ rw (e, f, parse_request) tt
    | inl f ↦ elim (Option-cases (payload pkt_chat d)) [
      | inr (m, q) ↦ rw (e, f, q, parse_request) tt
      | inl q ↦ rw (e, f, q, parse_request) tt
    ]
  ]
]

-- The tries of a game.
abbrev HasTries : Game → Type 0
HasTries g = IsInt g.remaining_tries

concluded-HasTries : (v : Verdict) → HasTries v.game → HasTries (concluded v)
unfolding concluded turned
concluded-HasTries v h = elim (Bool-cases (not (is_system (check_winner v.game)) || v.game_ends)) [
  | inl e ↦ rw (e, concluded) h
  | inr e ↦ elim (Bool-cases v.turn_ends) [
    | inl f ↦ rw (e, f, concluded) (omega arith)
    | inr f ↦ rw (e, f, concluded) h
  ]
]

process_hint-HasTries :
    (i : ℤ) (word : Bytes) (n : ℤ) (r : Room)
    → IsInt n
    → HasTries r.game
    → HasTries (process_hint i word n r).0.game
unfolding process_hint phased hinted
process_hint-HasTries i word n r k h =
    elim (Bool-cases (is_valid_player_for_hint i r.game r.world)) [
      | inr e ↦ rw (e, process_hint) h
      | inl e ↦
          rw (e, process_hint)
            (subst HasTries (sym (switch_phase_game _ ∙ ap phased (broadcast_game _ _))) k)
    ]

process_answer-HasTries :
    (i : ℤ) (word : Bytes) (r : Room) → HasTries r.game → HasTries (process_answer i word r).0.game
unfolding process_answer reveal
process_answer-HasTries i word r h =
    elim (Bool-cases (is_valid_player_for_answer i r.game r.world)) [
      | inr e ↦ rw (e, process_answer) h
      | inl e ↦ elim (Option-cases (find_card word r.game.cards)) [
        | inl f ↦ rw (e, f, process_answer) (rw (refuse_word_game i word r) h)
        | inr ((k, c), f) ↦
            rw (e, f, process_answer)
              (subst HasTries (sym (answer_card_game (player_name i r) k c r)) (
                concluded-HasTries (reveal k c r.game)
                  (reveal-Revealed k c c.card_type r.game h
                    (valid_answer i r.game r.world e).tries).tries))
      ]
    ]

perform-HasTries :
    (i : ℤ) (q : Request) (r : Room) → HasInt q → HasTries r.game → HasTries (perform i q r).game
unfolding perform
perform-HasTries i (hint word n) r k h = process_hint-HasTries i word n r k h
perform-HasTries i bad_hint r k h = h
perform-HasTries i (answer word) r k h = process_answer-HasTries i word r h
perform-HasTries i (chat m) r k h = subst HasTries (sym (process_chat_game i m r)) h
perform-HasTries i unknown r k h = h

handle_game_packet-HasTries :
    (s : Option ℕ) (d : Bytes) (r : Room)
    → HasTries r.game
    → HasTries (handle_game_packet s d r).game
unfolding handle_game_packet
handle_game_packet-HasTries none d r h = h
handle_game_packet-HasTries (some s) d r h =
    elim (Bool-cases ((r.world.sessions s).is_closed || is_empty d)) [
      | inl e ↦ rw (e, handle_game_packet) h
      | inr e ↦
          elim (Bool-cases
            (is_missing (find_player_index (r.world.sessions s).username r.game r.world))) [
              | inl f ↦ rw (e, f, handle_game_packet) h
              | inr f ↦
                  rw (e, f, handle_game_packet)
                    (perform-HasTries _ (parse_request d) r (parse_request-HasInt d) h)
            ]
    ]

-- What happens to a room: packets of players, while the session `me` sits in an open slot, and
-- whatever the rest of the server does to the sessions in between, as long as nothing is sent.
pub data Run (me : ℕ) (r : Room) : Room → Type 0 where
  begin : {q : Room} → q ≡ r → Run me r q
  packet_step :
      {q p : Room} (s : Option ℕ) (d : Bytes)
      → Run me r q
      → Listens me q
      → p ≡ handle_game_packet s d q
      → Run me r p
  elsewhere :
      {q p : Room} (h : ℕ → Session)
      → Run me r q
      → p ≡ record q { world = record (q.world) { sessions = h } }
      → Run me r p

record Steady (g : Game) : Type 0 where
  pub inv : Inv g
  pub tries : HasTries g

Steady-InRange : (g : Game) → Steady g → InRange g
Steady-InRange g s = record {
  board = s.inv.board;
  reds =
      omega
        (arith, s.inv.red_counted, s.inv.board, count_if-le-length (is_face_up red_card) g.cards);
  blues =
      omega
        (arith, s.inv.blue_counted, s.inv.board, count_if-le-length (is_face_up blue_card) g.cards);
  tries = s.tries;
}

module _ {O : Type 0} (on : Notice → GameState → O → O) (me : ℕ) (c : Client O) where
  Run-Synced :
      (r : Room) {q : Room}
      → Steady r.game
      → Synced on me c r
      → Run me r q
      → Steady q.game × Synced on me c q
  Run-Synced r s h (begin e) = rw e (s, h)
  Run-Synced r s h (packet_step {q} p d before l e) =
      let (steady, synced) = Run-Synced r s h before in
      rw e (
        record {
          inv = Move-Inv (handle_game_packet-Move p d q) steady.inv;
          tries = handle_game_packet-HasTries p d q steady.tries;
        },
        handle_game_packet-Synced on me c p d q (Steady-InRange q.game steady) l synced,
      )
  Run-Synced r s h (elsewhere k before e) =
      let (steady, synced) = Run-Synced r s h before in rw e (steady, synced)

  -- A client that gets each message as one packet stays up to date from StartGame on.
  pub start_game-Run-Synced :
      (file : Option Bytes) (shuffle : List CardType → List CardType) (now : ℕ) (r : Room)
      {q : Room}
      → ((ts : List CardType) → Perm ts (shuffle ts))
      → map vacate r.game.players ≡ (new_game []).players
      → get_player_count r.game ≡ max_players
      → Listens me r
      → All IsSendable (initialize_game file shuffle r.game).cards
      → Fits (all_cards_message (initialize_game file shuffle r.game))
      → Run me (start_game file shuffle now r).0 q
      → Synced on me c q
  unfolding initialize_game reset
  start_game-Run-Synced file shuffle now r shuffles seats six l words fits run =
      let begun = start_game file shuffle now r in
      let synced = start_game-Synced on me c file shuffle now r shuffles six l words fits in
      let tries : HasTries begun.0.game =
        subst HasTries (sym (started_game file shuffle shuffles now r six)) (omega arith) in
      let steady : Steady begun.0.game = record {
        inv = (start_game-Inv file shuffle shuffles now r seats six).0;
        tries = tries;
      } in
      (Run-Synced begun.0 steady synced run).1
