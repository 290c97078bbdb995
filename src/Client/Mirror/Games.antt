-- ===== src/Client/Mirror/Games.antt =====
-- GameManager::HandleGamePacket and the client: whatever a player sends, every listening client
-- shows the game as it is on the server afterwards.
use codenames_cpp_vibecoding.Prelude.{
  ℕ, ◌<◌, ◌≡◌, arith, ◌||◌, [], ◌∷◌, Option, none, some, ℤ, pos, Bool-cases, Option-cases, inl, inr,
  length,
}
use codenames_cpp_vibecoding.Text.{Bytes, max_int, text, is_empty}
use codenames_cpp_vibecoding.Text.Decimal.{IsInt}
use codenames_cpp_vibecoding.Protocol.{packet, pkt_answer_result}
use codenames_cpp_vibecoding.Game.{Game, GameCard, GamePlayer, Room, max_cards, with_game}
use codenames_cpp_vibecoding.Game.Roster.{slot, find_player_index}
use codenames_cpp_vibecoding.Game.Broadcast.{broadcast_to_all, send_card_update}
use codenames_cpp_vibecoding.Game.Broadcast.Delivery.{
  broadcast_game, send_card_update_game, send_card_update_sessions,
}
use codenames_cpp_vibecoding.Game.Cards.{reveal, find_card}
use codenames_cpp_vibecoding.Game.Play.{
  answer_card, remark_message, player_name, player_session, refuse_word, process_answer,
  is_valid_player_for_answer, chat_message, chat_from, process_chat, perform, is_missing,
  handle_game_packet,
}
use codenames_cpp_vibecoding.Game.Play.Answer.{find_card-some}
use codenames_cpp_vibecoding.Game.Play.Guards.{MayAnswer, valid_answer}
use codenames_cpp_vibecoding.Game.Requests.{
  Request, hint, bad_hint, answer, chat, unknown, parse_request,
}
use codenames_cpp_vibecoding.Client.{GameState, Client, Notice}
use codenames_cpp_vibecoding.Client.Mirror.{Mirrors, Listens, Synced}
use codenames_cpp_vibecoding.Client.Mirror.Replay.{
  broadcast_keeps, broadcast-Listens, post_send_keeps,
}
use codenames_cpp_vibecoding.Client.Mirror.Messages.{chat-Hears, answer_result-Hears}
use codenames_cpp_vibecoding.Client.Mirror.Turns.{process_hint-Synced}
use codenames_cpp_vibecoding.Client.Mirror.Answers.{
  reveal-Revealed, show_card-Synced, conclude-Synced,
}

-- The board is full, and the numbers of the game are such that the client's `int`s hold them, one
-- point more included.
pub record InRange (g : Game) : Type 0 where
  pub board : length g.cards ≡ max_cards
  pub reds : g.red_score < max_int
  pub blues : g.blue_score < max_int
  pub tries : IsInt g.remaining_tries

module _ {O : Type 0} (on : Notice → GameState → O → O) (me : ℕ) (c : Client O) where
  answer_card-Synced :
      (name word : Bytes) (i : ℤ) (k : ℕ) (card : GameCard) (r : Room)
      → InRange r.game
      → MayAnswer i r.game r.world
      → find_card word r.game.cards ≡ some (k, card)
      → Listens me r
      → Synced on me c r
      → Synced on me c (answer_card name k card r)
  unfolding answer_card reveal remark_message
  answer_card-Synced name word i k card r range may found l h =
      let v = reveal k card r.game in
      let revealed = reveal-Revealed k card card.card_type r.game range.tries may.tries in
      let at = (find_card-some word r.game.cards k card found).0 in
      let q = send_card_update (pos k) (with_game r v.game) in
      let m = remark_message name v.remark in
      let synced = show_card-Synced on me c k card v.game r at range.board revealed l h in
      let told = broadcast_keeps on me (Mirrors q.game) m (chat-Hears on q.game _ _) c q synced in
      conclude-Synced on me c card.card_type v (broadcast_to_all m q)
        (rw (broadcast_game m q, send_card_update_game (pos k) (with_game r v.game))
          (omega (arith, revealed.reds, range.reds)))
        (rw (broadcast_game m q, send_card_update_game (pos k) (with_game r v.game))
          (omega (arith, revealed.blues, range.blues)))
        (broadcast-Listens me m q (
          rw
            (
              send_card_update_game (pos k) (with_game r v.game),
              send_card_update_sessions (pos k) (with_game r v.game),
            )
            (rw revealed.seats l)))
        (rw (broadcast_game m q) told)

  refuse_word-Synced :
      (i : ℤ) (word : Bytes) (r : Room) → Synced on me c r → Synced on me c (refuse_word i word r)
  unfolding refuse_word
  refuse_word-Synced i word r h = elim (Option-cases (player_session r.game i)) [
    | inl e ↦ rw (e, refuse_word) h
    | inr (s, e) ↦
        rw (e, refuse_word)
          (post_send_keeps on me (Mirrors r.game)
            (packet pkt_answer_result (text "INVALID" ∷ word ∷ []))
            (answer_result-Hears on r.game (text "INVALID") (word ∷ [])) s c r.world h)
  ]

  process_answer-Synced :
      (i : ℤ) (word : Bytes) (r : Room)
      → InRange r.game
      → Listens me r
      → Synced on me c r
      → Synced on me c (process_answer i word r).0
  unfolding process_answer
  process_answer-Synced i word r range l h =
      elim (Bool-cases (is_valid_player_for_answer i r.game r.world)) [
        | inr e ↦ rw (e, process_answer) h
        | inl e ↦ elim (Option-cases (find_card word r.game.cards)) [
          | inl f ↦ rw (e, f, process_answer) (refuse_word-Synced i word r h)
          | inr ((k, card), f) ↦
              rw (e, f, process_answer)
                (answer_card-Synced (player_name i r) word i k card r range
                  (valid_answer i r.game r.world e) f l h)
        ]
      ]

  chat_from-Synced :
      (i : ℤ) (m : Bytes) (r : Room) (p : GamePlayer)
      → Synced on me c r
      → Synced on me c (chat_from i m r p).0
  unfolding chat_from chat_message
  chat_from-Synced i m r p h = elim (Option-cases p.session) [
    | inl e ↦ rw (e, chat_from) h
    | inr (s, e) ↦ elim (Bool-cases ((r.world.sessions s).is_closed || is_empty m)) [
      | inl e2 ↦ rw (e, e2, chat_from) h
      | inr e2 ↦
          let line = chat_message p i (r.world.sessions s).username m in
          rw (e, e2, chat_from)
            (rw (broadcast_game line r)
              (broadcast_keeps on me (Mirrors r.game) line (chat-Hears on r.game _ _) c r h))
    ]
  ]

  process_chat-Synced :
      (i : ℤ) (m : Bytes) (r : Room) → Synced on me c r → Synced on me c (process_chat i m r).0
  unfolding process_chat
  process_chat-Synced i m r h = elim (Bool-cases r.game.game_over) [
    | inl e ↦ simp (e, process_chat) h
    | inr e ↦ elim (Option-cases (slot r.game i)) [
      | inl f ↦ simp (e, f, process_chat) h
      | inr (p, f) ↦ simp (e, f, process_chat) (chat_from-Synced i m r p h)
    ]
  ]

  perform-Synced :
      (i : ℤ) (q : Request) (r : Room)
      → InRange r.game
      → Listens me r
      → Synced on me c r
      → Synced on me c (perform i q r)
  unfolding perform
  perform-Synced i (hint word n) r range l h =
      process_hint-Synced on me c i word n r (omega (arith, range.reds))
        (omega (arith, range.blues)) l h
  perform-Synced i bad_hint r range l h = h
  perform-Synced i (answer word) r range l h = process_answer-Synced i word r range l h
  perform-Synced i (chat m) r range l h = process_chat-Synced i m r h
  perform-Synced i unknown r range l h = h

  -- Let the session `me` sit open in the room, the board have 25 cards, and the scores and tries be
  -- in the range of `int`, with one point to spare. If the client of `me`, which has processed all
  -- that was sent to `me`, shows the cards, the turn and the phase of the game, and the end of the
  -- game if it is over, then it does so again when the server has handled any packet of any session
  -- and the client has processed all that this sent to `me`.
  pub handle_game_packet-Synced :
      (s : Option ℕ) (packet_data : Bytes) (r : Room)
      → InRange r.game
      → Listens me r
      → Synced on me c r
      → Synced on me c (handle_game_packet s packet_data r)
  unfolding handle_game_packet
  handle_game_packet-Synced none d r range l h = h
  handle_game_packet-Synced (some s) d r range l h =
      elim (Bool-cases ((r.world.sessions s).is_closed || is_empty d)) [
        | inl e ↦ rw (e, handle_game_packet) h
        | inr e ↦
            elim (Bool-cases
              (is_missing (find_player_index (r.world.sessions s).username r.game r.world))) [
                | inl f ↦ rw (e, f, handle_game_packet) h
                | inr f ↦
                    rw (e, f, handle_game_packet) (perform-Synced _ (parse_request d) r range l h)
              ]
      ]
