-- ===== src/Client/Mirror/Start.antt =====
-- StartGame: the messages with which a game begins bring it to the clients.
use codenames_cpp_vibecoding.Prelude.{
  ℕ, ==_iff, ◌≤◌, ◌≡◌, refl, ◌∙◌, sym, subst, ap, arith, false, List, [], ◌∷◌, Option, map, length,
  All,
}
use codenames_cpp_vibecoding.Text.{Bytes, max_int, text, to_string_ℕ}
use mathlib.Core.List.{Perm}
use codenames_cpp_vibecoding.Protocol.{packet, pkt_game_start}
use codenames_cpp_vibecoding.Game.Board.{load_word_list}
use codenames_cpp_vibecoding.Game.Board.Words.{load_word_list_full}
use codenames_cpp_vibecoding.Game.Board.Deal.{length-assign_cards}
use codenames_cpp_vibecoding.Game.Start.Opening.{started_game, started_game_players}
use codenames_cpp_vibecoding.Session.{World}
use codenames_cpp_vibecoding.Session.Sending.{Fits}
use codenames_cpp_vibecoding.Game.{
  Game, GamePlayer, Room, CardType, max_players, max_cards, with_game,
}
use codenames_cpp_vibecoding.Game.Broadcast.{
  broadcast_each, broadcast_to_all, all_cards_message, send_all_cards_each, send_all_cards_to_all,
  turn_update_message, send_game_state, send_game_init, broadcast_game_system_message, deliver,
}
use codenames_cpp_vibecoding.Game.Broadcast.Delivery.{
  broadcast_game, broadcast_sessions, broadcast_game_system_message_game,
  broadcast_game_system_message_sessions, send_all_cards_to_all_sessions,
}
use codenames_cpp_vibecoding.Game.Roster.{get_player_count}
use codenames_cpp_vibecoding.Game.Start.{start_game, initialize_game, reset}
use codenames_cpp_vibecoding.Client.{GameState, Client, Notice}
use codenames_cpp_vibecoding.Client.Packets.Cards.{shown, IsSendable, board-shown}
use codenames_cpp_vibecoding.Client.Packets.Updates.{turn_update-shown}
use codenames_cpp_vibecoding.Client.Mirror.{Mirrors, Listens, Hears, view, Synced}
use codenames_cpp_vibecoding.Client.Mirror.Replay.{broadcast_reaches}
use codenames_cpp_vibecoding.Client.Mirror.Messages.{turn_update-Hears}
use codenames_cpp_vibecoding.Client.Mirror.Sizes.{turn_update-Fits}

-- SendAllCardsToAll is a broadcast.
send_all_cards_each-broadcast_each :
    (m : Bytes) (ps : List GamePlayer) (w : World)
    → send_all_cards_each m ps w ≡ broadcast_each m ps w
unfolding send_all_cards_each broadcast_each
send_all_cards_each-broadcast_each m [] w = refl
send_all_cards_each-broadcast_each m (p ∷ ps) w =
    send_all_cards_each-broadcast_each m ps (deliver m p.session w)

send_all_cards-broadcast :
    (r : Room)
    → Fits (all_cards_message r.game)
    → (send_all_cards_to_all r).world ≡ (broadcast_to_all (all_cards_message r.game) r).world
unfolding send_all_cards_to_all broadcast_to_all
send_all_cards-broadcast r f =
    rw (f.0, broadcast_to_all)
      (send_all_cards_each-broadcast_each (all_cards_message r.game) r.game.players r.world)

-- What InitializeGame sets.
record IsFresh (g : Game) : Type 0 where
  pub board : length g.cards ≡ max_cards
  pub running : g.game_over ≡ false
  pub reds : g.red_score ≤ max_int
  pub blues : g.blue_score ≤ max_int

initialize_game-IsFresh :
    (file : Option Bytes) (shuffle : List CardType → List CardType) (g : Game)
    → ((ts : List CardType) → Perm ts (shuffle ts))
    → IsFresh (initialize_game file shuffle g)
unfolding initialize_game reset
initialize_game-IsFresh file shuffle g shuffles = record {
  board =
      length-assign_cards shuffle shuffles (load_word_list file g).0 (load_word_list_full file g).0;
  running = refl;
  reds = omega arith;
  blues = omega arith;
}

abbrev HasBoard : Game → GameState → Type 0
HasBoard g s = s.cards ≡ map shown g.cards

abbrev Any : GameState → Type 0
Any s = Unit

module _ {O : Type 0} (on : Notice → GameState → O → O) where
  board-Hears :
      (g : Game) (P : GameState → Type 0)
      → length g.cards ≡ max_cards
      → All IsSendable g.cards
      → Hears on P (HasBoard g) (all_cards_message g)
  board-Hears g P size words c h = ap (λ (s : GameState). s.cards) (board-shown on g c size words)

  opening-Hears :
      (g : Game)
      → g.game_over ≡ false
      → g.red_score ≤ max_int
      → g.blue_score ≤ max_int
      → Hears on (HasBoard g) (Mirrors g) (turn_update_message g)
  opening-Hears g running hr hb c h =
      subst (Mirrors g) (sym (turn_update-shown on g c hr hb))
        (record { cards = h; turn = refl; step = refl; over = λ o. cc })

  module _ (me : ℕ) (c : Client O) where
    show_board-Synced :
        (r : Room)
        → length r.game.cards ≡ max_cards
        → All IsSendable r.game.cards
        → Fits (all_cards_message r.game)
        → r.game.game_over ≡ false
        → r.game.red_score ≤ max_int
        → r.game.blue_score ≤ max_int
        → Listens me r
        → Synced on me c (send_game_state (send_all_cards_to_all r))
    unfolding send_game_state send_all_cards_to_all
    show_board-Synced r size words fits running hr hb l =
        let dealt =
          broadcast_reaches on me Any (HasBoard r.game) (all_cards_message r.game)
            (board-Hears r.game Any size words) (board-Hears r.game (HasBoard r.game) size words) c
            r fits l tt in
        let q = send_all_cards_to_all r in
        let m = turn_update_message r.game in
        let here : HasBoard r.game (view on me c q.world) =
          subst (λ (w : World). HasBoard r.game (view on me c w))
            (sym (send_all_cards-broadcast r fits)) dealt in
        rw (broadcast_game m q) (
          broadcast_reaches on me (HasBoard r.game) (Mirrors r.game) m
            (opening-Hears r.game running hr hb)
            (turn_update-Hears on r.game r.game refl refl hr hb) c q (turn_update-Fits r.game hr hb)
            (rw (send_all_cards_to_all_sessions r) l) here)

    -- Let six players sit in the room, the session `me` open among them, and the shuffle only reorder.
    -- If the words of the new game are not empty and have no delimiter, and the board fits the send
    -- buffer, then after StartGame the client of `me`, which has processed all that was sent to `me`,
    -- shows the cards, the turn and the phase of the new game, whatever it showed before.
    pub start_game-Synced :
        (file : Option Bytes) (shuffle : List CardType → List CardType) (now : ℕ) (r : Room)
        → ((ts : List CardType) → Perm ts (shuffle ts))
        → get_player_count r.game ≡ max_players
        → Listens me r
        → All IsSendable (initialize_game file shuffle r.game).cards
        → Fits (all_cards_message (initialize_game file shuffle r.game))
        → Synced on me c (start_game file shuffle now r).0
    unfolding start_game send_game_init
    start_game-Synced file shuffle now r shuffles six l words fits =
        let g = initialize_game file shuffle r.game in
        let q0 = broadcast_to_all (packet pkt_game_start (to_string_ℕ now ∷ [])) (with_game r g) in
        let q1 = send_game_init q0 in
        let q2 = broadcast_game_system_message (text "게임 시작!") q1 in
        let fresh = initialize_game-IsFresh file shuffle r.game shuffles in
        let seats : g.players ≡ r.game.players =
          ap (λ (h : Game). h.players) (sym (started_game file shuffle shuffles now r six))
          ∙ started_game_players file shuffle shuffles now r six in
        let same : q2.game ≡ g =
          broadcast_game_system_message_game _ _ ∙ broadcast_game _ _ ∙ broadcast_game _ _ in
        let heap : q2.world.sessions ≡ r.world.sessions =
          broadcast_game_system_message_sessions _ _
          ∙ broadcast_sessions _ _
          ∙ broadcast_sessions _ _ in
        rw ((==_iff (get_player_count r.game) max_players).1 six, start_game)
          (show_board-Synced q2 (rw same fresh.board) (rw same words) (rw same fits)
            (rw same fresh.running) (rw same fresh.reds) (rw same fresh.blues)
            (rw (same, heap, seats) l))
