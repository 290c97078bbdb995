-- ===== src/Game/Turns.antt =====
-- The turn management of GameManager.cpp: SwitchTurn, SwitchPhase, CheckWinner and EndGame.
pub mod Ending
use codenames_cpp_vibecoding.Prelude.{
  ℕ, ◌++◌, Bool, true, false, List, [], ◌∷◌, Option, none, some, if◌then◌else◌, leb, pos,
}
use codenames_cpp_vibecoding.Text.{Bytes, text, to_string_ℕ}
use codenames_cpp_vibecoding.Protocol.{pkt_game_over, packet}
use codenames_cpp_vibecoding.Session.{World, saved, in_lobby, modify, set_state, set_game_manager}
use codenames_cpp_vibecoding.Game.{
  Game, GamePlayer, Room, Team, red, blue, system, hint_phase, guess_phase, is_hint_phase, team_num,
  same_team, red_cards, blue_cards, with_game,
}
use codenames_cpp_vibecoding.Game.Broadcast.{
  broadcast_to_all, broadcast_game_system_message, turn_update_message,
}

-- `(t == Team::RED) ? Team::BLUE : Team::RED`
abbrev pub next_team : Team → Team
next_team red = blue
next_team _ = red

-- The state after SwitchTurn.
unfoldable pub turned : Game → Game
turned g = record g {
  current_turn = next_team g.current_turn;
  current_phase = hint_phase;
  remaining_tries = pos 0;
  hint_word = [];
  hint_count = pos 0;
}

unfoldable pub switch_turn : Room → Room
unfolding turned
switch_turn r = let g = turned r.game in broadcast_to_all (turn_update_message g) (with_game r g)

unfoldable pub phased : Game → Game
phased g = record g {
  current_phase = if is_hint_phase g.current_phase then guess_phase else hint_phase;
}

unfoldable pub switch_phase : Room → Room
unfolding phased
switch_phase r = let g = phased r.game in broadcast_to_all (turn_update_message g) (with_game r g)

-- Team::SYSTEM stands for no winner.
unfoldable pub check_winner : Game → Team
check_winner g =
    if leb red_cards g.red_score then red else if leb blue_cards g.blue_score then blue else system

pub winner_name : Team → Bytes
winner_name red = text "RED"
winner_name blue = text "BLUE"
winner_name system = text "DRAW"

unfoldable pub game_over_message : Team → Bytes
game_over_message winner = packet pkt_game_over (to_string_ℕ (team_num winner) ∷ [])

abbrev pub result_of : Team → GamePlayer → Bytes
result_of winner p = if same_team p.team winner then text "WIN" else text "LOSS"

unfoldable pub save_one : Team → GamePlayer → Option ℕ → World → World
save_one winner p none w = w
save_one winner p (some s) w = record w {
  log = w.log ++ saved (w.sessions s).username (result_of winner p) ∷ [];
}

-- The first loop: each seated player's result goes to the database. What SaveGameResult returns is
-- only logged.
unfoldable pub save_results : Team → List GamePlayer → World → World
unfolding save_one
save_results winner [] w = w
save_results winner (p ∷ ps) w = save_results winner ps (save_one winner p p.session w)

-- A seated session goes back to the lobby.
unfoldable pub release_one : Option ℕ → World → World
release_one none w = w
release_one (some s) w = modify s (set_game_manager none) (modify s (set_state in_lobby) w)

-- The second loop; the slots keep their sessions.
unfoldable pub release_players : List GamePlayer → World → World
unfolding release_one
release_players [] w = w
release_players (p ∷ ps) w = release_players ps (release_one p.session w)

unfoldable pub settle : Team → Room → Room
unfolding save_results release_players
settle winner r =
    let ps = r.game.players in
    record r { world = release_players ps (save_results winner ps r.world) }

unfoldable pub end_game : Team → Room → Room
unfolding settle winner_name game_over_message
end_game winner r = settle winner (
    broadcast_to_all (game_over_message winner) (
      broadcast_game_system_message (winner_name winner ++ text "팀이 승리했습니다!")
        (with_game r (record (r.game) { game_over = true }))))
