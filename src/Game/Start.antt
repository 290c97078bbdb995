-- ===== src/Game/Start.antt =====
-- The life of a room in GameManager.cpp: InitializeGame, StartGame and the destructor.
pub mod Opening
pub mod Closing
use codenames_cpp_vibecoding.Prelude.{
  ℕ, ◌==◌, Bool, true, false, not, List, [], ◌∷◌, Option, none, some, if◌then◌else◌, pos, map,
}
use codenames_cpp_vibecoding.Text.{Bytes, text, to_string_ℕ}
use codenames_cpp_vibecoding.Protocol.{pkt_game_start, pkt_game_over, packet}
use codenames_cpp_vibecoding.Session.{World, in_lobby, modify, set_state, set_game_manager}
use codenames_cpp_vibecoding.Game.{
  Game, GamePlayer, Room, CardType, red, hint_phase, max_players, with_game,
}
use codenames_cpp_vibecoding.Game.Turns.{release_players}
use codenames_cpp_vibecoding.Game.Board.{load_word_list, assign_cards}
use codenames_cpp_vibecoding.Game.Roster.{get_player_count}
use codenames_cpp_vibecoding.Game.Broadcast.{
  broadcast_to_all, broadcast_game_system_message, send_game_init, send_all_cards_to_all,
  send_game_state,
}

-- The counters as InitializeGame sets them.
unfoldable pub reset : Game → Game
reset g = record g {
  current_turn = red;
  current_phase = hint_phase;
  red_score = 0;
  blue_score = 0;
  remaining_tries = pos 0;
  hint_word = [];
  hint_count = pos 0;
  game_over = false;
}

-- `file` is what words.txt holds, `none` if it does not open; `shuffle` is the generator's choice.
unfoldable pub initialize_game : Option Bytes → (List CardType → List CardType) → Game → Game
unfolding reset
initialize_game file shuffle g = reset (assign_cards shuffle (load_word_list file g).0)

-- `now` is std::time(nullptr).
unfoldable pub start_game : Option Bytes → (List CardType → List CardType) → ℕ → Room → Room × Bool
start_game file shuffle now r =
    if get_player_count r.game == max_players
    then (
      send_game_state (
          send_all_cards_to_all (
            broadcast_game_system_message (text "게임 시작!") (
              send_game_init (
                broadcast_to_all (packet pkt_game_start (to_string_ℕ now ∷ []))
                  (with_game r (initialize_game file shuffle r.game)))))),
      true,
    )
    else (r, false)

unfoldable pub vacate : GamePlayer → GamePlayer
vacate p = record p { session = none }

-- Every seated session goes back to the lobby, and its slot is freed, by the loop that EndGame has
-- too. A game that is not over is announced as lost, with -1 for the winner.
unfoldable pub destroy : Room → Room
unfolding vacate
destroy r =
    let told : Room =
      if r.game.game_over
      then r
      else broadcast_to_all (packet pkt_game_over (text "-1" ∷ []))
          (broadcast_game_system_message (text "예기치 못하게 게임이 종료되었습니다. (서버 종료)") r) in
    record told {
      game = record (told.game) { players = map vacate told.game.players };
      world = release_players told.game.players told.world;
    }
