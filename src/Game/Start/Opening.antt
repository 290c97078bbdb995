-- ===== src/Game/Start/Opening.antt =====
-- A game that starts has the invariant and a full deal, and so keeps both.
use mathlib.Core.List.{Perm}
use codenames_cpp_vibecoding.Prelude.{
  ℕ, ◌≡◌, refl, ◌∙◌, ap, arith, true, false, List, [], Option, none, some, map, length, ==_iff, ◌≤◌,
  ◌↔◌, ◌⊎◌, ◌≢◌,
}
use codenames_cpp_vibecoding.Text.{Bytes}
use codenames_cpp_vibecoding.Game.{
  Game, Room, CardType, red_card, blue_card, assassin, new_game, max_players, max_cards, red_cards,
  blue_cards,
}
use codenames_cpp_vibecoding.Game.Board.{load_word_list, assign_cards}
use codenames_cpp_vibecoding.Game.Board.Words.{load_word_list_full}
use codenames_cpp_vibecoding.Game.Board.Deal.{
  assign_cards-IsDealt, length-assign_cards, assign_cards_face_down,
}
use codenames_cpp_vibecoding.Game.Roster.{get_player_count}
use codenames_cpp_vibecoding.Game.Broadcast.{send_game_state, send_all_cards_to_all, send_game_init}
use codenames_cpp_vibecoding.Game.Broadcast.Delivery.{
  broadcast_game, broadcast_game_system_message_game, broadcast_sessions,
  send_all_cards_to_all_sessions, broadcast_game_system_message_sessions,
}
use codenames_cpp_vibecoding.Game.Start.{initialize_game, reset, start_game, vacate}
use codenames_cpp_vibecoding.Game.Invariant.{Inv, face_up}
use codenames_cpp_vibecoding.Game.Invariant.Histories.{Packet, play, play-Inv}
use codenames_cpp_vibecoding.Game.Invariant.Deck.{IsDealt, play_outcome}

load_word_list_players :
    (file : Option Bytes) (g : Game) → (load_word_list file g).0.players ≡ g.players
unfolding load_word_list
load_word_list_players none g = refl
load_word_list_players (some content) g = refl

assign_cards_players :
    (shuffle : List CardType → List CardType) (g : Game)
    → (assign_cards shuffle g).players ≡ g.players
unfolding assign_cards
assign_cards_players shuffle g = refl

reset-Inv :
    (g : Game)
    → map vacate g.players ≡ (new_game []).players
    → length g.cards ≡ max_cards
    → ((t : CardType) → face_up t g.cards ≡ 0)
    → Inv (reset g)
unfolding reset
reset-Inv g seats board down = record {
  seats = seats;
  board = board;
  red_counted = ground (arith, down red_card);
  blue_counted = ground (arith, down blue_card);
  playable = refl;
  idle = λ e. refl;
  decided = ground (arith, down assassin);
}

reset-IsDealt : (g : Game) → IsDealt g → IsDealt (reset g)
unfolding reset
reset-IsDealt g d = record {
  reds = d.reds;
  blues = d.blues;
  neutrals = d.neutrals;
  assassins = d.assassins;
}

module _ (file : Option Bytes) (shuffle : List CardType → List CardType)
    (shuffles : (ts : List CardType) → Perm ts (shuffle ts)) where
  full : (g : Game) → length (load_word_list file g).0.word_list ≡ max_cards
  full g = (load_word_list_full file g).0

  initialize_game-Inv :
      (g : Game)
      → map vacate g.players ≡ (new_game []).players
      → Inv (initialize_game file shuffle g)
  unfolding initialize_game
  initialize_game-Inv g seats =
      let loaded = (load_word_list file g).0 in
      reset-Inv (assign_cards shuffle loaded)
        (rw (assign_cards_players shuffle loaded, load_word_list_players file g) seats)
        (length-assign_cards shuffle shuffles loaded (full g))
        (λ t. assign_cards_face_down t shuffle loaded)

  initialize_game-IsDealt : (g : Game) → IsDealt (initialize_game file shuffle g)
  unfolding initialize_game
  initialize_game-IsDealt g =
      reset-IsDealt _ (assign_cards-IsDealt shuffle shuffles (load_word_list file g).0 (full g))

  send_all_cards_to_all_game : (r : Room) → (send_all_cards_to_all r).game ≡ r.game
  unfolding send_all_cards_to_all
  send_all_cards_to_all_game r = refl

  pub started_game :
      (now : ℕ) (r : Room)
      → get_player_count r.game ≡ max_players
      → (start_game file shuffle now r).0.game ≡ initialize_game file shuffle r.game
  unfolding start_game send_game_state send_game_init
  started_game now r e =
      rw ((==_iff (get_player_count r.game) max_players).1 e, start_game)
        (broadcast_game _ _
          ∙ send_all_cards_to_all_game _
          ∙ broadcast_game_system_message_game _ _
          ∙ broadcast_game _ _
          ∙ broadcast_game _ _)

  pub started_game_sessions :
      (now : ℕ) (r : Room)
      → get_player_count r.game ≡ max_players
      → (start_game file shuffle now r).0.world.sessions ≡ r.world.sessions
  unfolding start_game send_game_state send_game_init
  started_game_sessions now r e =
      rw ((==_iff (get_player_count r.game) max_players).1 e, start_game)
        (broadcast_sessions _ _
          ∙ send_all_cards_to_all_sessions _
          ∙ broadcast_game_system_message_sessions _ _
          ∙ broadcast_sessions _ _
          ∙ broadcast_sessions _ _)

  pub started_game_true :
      (now : ℕ) (r : Room)
      → get_player_count r.game ≡ max_players
      → (start_game file shuffle now r).1 ≡ true
  unfolding start_game
  started_game_true now r e =
      rw ((==_iff (get_player_count r.game) max_players).1 e, start_game) refl

  pub started_game_players :
      (now : ℕ) (r : Room)
      → get_player_count r.game ≡ max_players
      → (start_game file shuffle now r).0.game.players ≡ r.game.players
  unfolding initialize_game reset
  started_game_players now r e =
      ap (λ (g : Game). g.players) (started_game now r e)
      ∙ assign_cards_players shuffle (load_word_list file r.game).0
      ∙ load_word_list_players file r.game

  -- With six players StartGame succeeds, and leaves a game with the invariant and a full deal: no
  -- score, no card face up, red to give a hint.
  pub start_game-Inv :
      (now : ℕ) (r : Room)
      → map vacate r.game.players ≡ (new_game []).players
      → get_player_count r.game ≡ max_players
      → Inv (start_game file shuffle now r).0.game × IsDealt (start_game file shuffle now r).0.game
  start_game-Inv now r seats six =
      rw (started_game now r six) (initialize_game-Inv r.game seats, initialize_game-IsDealt r.game)

  -- From the start of a game on, with six players in the slots that the constructor made, a shuffle
  -- that only reorders, whatever words file and whatever packets: the scores count the cards that are face up and are
  -- at most 9 and 8, and the game is over exactly when one of them is reached or the assassin is
  -- face up.
  pub started_game_outcome :
      (now : ℕ) (r : Room) (es : List Packet)
      → map vacate r.game.players ≡ (new_game []).players
      → get_player_count r.game ≡ max_players
      → let h = play es (start_game file shuffle now r).0.game in
        (h.red_score ≡ face_up red_card h.cards)
        × (h.blue_score ≡ face_up blue_card h.cards)
        × (h.red_score ≤ red_cards)
        × (h.blue_score ≤ blue_cards)
        × ((h.game_over ≡ true) ↔ (
            (h.red_score ≡ red_cards)
            ⊎ (h.blue_score ≡ blue_cards)
            ⊎ (face_up assassin h.cards ≡ 1)))
  started_game_outcome now r es seats six =
      let (v, d) = start_game-Inv now r seats six in
      let g = (start_game file shuffle now r).0.game in
      let w = play-Inv es g v in
      let (reds, blues, ends) = play_outcome es g v d in
      (w.red_counted, w.blue_counted, reds, blues, ends)

-- Without six players StartGame fails and changes nothing.
pub start_game_refused :
    (file : Option Bytes) (shuffle : List CardType → List CardType) (now : ℕ) (r : Room)
    → get_player_count r.game ≢ max_players
    → start_game file shuffle now r ≡ (r, false)
unfolding start_game
start_game_refused file shuffle now r h = ground arith
