-- ===== src/Tests/Fixtures.antt =====
-- The test data: six sessions, the room in which they sit, and packets.
use mathlib.Core.List.{Perm}
use mathlib.Core.List.Perm.{refl as perm_refl}
use codenames_cpp_vibecoding.Prelude.{
  ℕ, ◌+◌, arith, true, false, List, [], ◌∷◌, none, some, pos, map, ◌≡◌, refl,
}
use codenames_cpp_vibecoding.Text.{text}
use codenames_cpp_vibecoding.Protocol.{packet, pkt_hint_msg, pkt_answer}
use codenames_cpp_vibecoding.Session.{World, Session, in_lobby, no_user_info}
use codenames_cpp_vibecoding.Game.{
  Game, GamePlayer, Room, Team, red, blue, PlayerRole, agent, spymaster, new_game, empty_slot,
  guess_phase, CardType, max_players,
}
use codenames_cpp_vibecoding.Game.Roster.{get_player_count}
use codenames_cpp_vibecoding.Game.Start.{vacate}
use codenames_cpp_vibecoding.Game.Invariant.Histories.{Packet}
use codenames_cpp_vibecoding.SessionManager.{SessionManager, Hub}
use codenames_cpp_vibecoding.SessionManager.Registry.{Inv}
use codenames_cpp_vibecoding.Assoc
use codenames_cpp_vibecoding.Server.{Server}

-- The session `q` has the socket `100 + q`, no token, and the nickname "a", "b", ...
abbrev pub demo_session : ℕ → Session
demo_session q = record {
  socket = 100 + q;
  game_manager = none;
  server = true;
  token = [];
  username = (97 + q) ∷ [];
  is_in_matching_queue = false;
  current_state = in_lobby;
  is_closed = false;
  user_info = no_user_info;
  is_logged_in = true;
}

abbrev pub demo_world : World
demo_world = record { sessions = demo_session; log = [] }

abbrev pub seat_of : ℕ → Team → PlayerRole → GamePlayer
seat_of i t p = record { role_num = i; team = t; role = p; session = some i }

abbrev pub demo_players : List GamePlayer
demo_players =
    seat_of 0 red spymaster
    ∷ seat_of 1 red agent
    ∷ seat_of 2 red agent
    ∷ seat_of 3 blue spymaster
    ∷ seat_of 4 blue agent
    ∷ seat_of 5 blue agent
    ∷ []

abbrev pub demo_game : Game
demo_game = record (new_game (text "room")) { players = demo_players }

abbrev pub demo_room : Room
demo_room = record { game = demo_game; world = demo_world }

-- The spymaster of red gives a hint, and an agent of red answers.
abbrev pub hint_packet : Packet
hint_packet = record {
  session = some 0;
  content = packet pkt_hint_msg (text "animal" ∷ text "2" ∷ []);
  seen = demo_world;
}

abbrev pub answer_packet : Packet
answer_packet = record {
  session = some 1;
  content = packet pkt_answer (text "cat" ∷ []);
  seen = demo_world;
}

abbrev pub demo_packets : List Packet
demo_packets = hint_packet ∷ answer_packet ∷ []

-- Red guesses, with one try left.
abbrev pub guessing_game : Game
guessing_game = record demo_game { current_phase = guess_phase; remaining_tries = pos 1 }

abbrev pub guessing_room : Room
guessing_room = record { game = guessing_game; world = demo_world }

-- A registry with the sessions 0 and 1, and nobody waiting.
abbrev pub demo_manager : SessionManager
demo_manager = record {
  sessions = (100, 0) ∷ (101, 1) ∷ [];
  token_to_socket = [];
  matching_queue = [];
  session_count = 2;
}

abbrev pub demo_hub : Hub
demo_hub = record { manager = demo_manager; world = demo_world; requests = [] }

-- A running server with no room.
abbrev pub demo_server : Server
demo_server = record {
  is_running = true;
  hub = demo_hub;
  active_games = [];
  games = λ g. demo_game;
  fresh = 0;
}

-- A shuffle that changes nothing.
abbrev pub unshuffled : List CardType → List CardType
unshuffled ts = ts

pub unshuffled-Perm : (ts : List CardType) → Perm ts (unshuffled ts)
unshuffled-Perm ts = perm_refl ts

pub demo_count : get_player_count demo_game ≡ max_players
unfolding get_player_count
demo_count = refl

pub demo_seats : map vacate demo_players ≡ (new_game []).players
unfolding vacate new_game empty_slot
demo_seats = refl

pub demo_manager-Inv : Inv demo_manager
unfolding Assoc.contains
demo_manager-Inv = record {
  sockets = (refl, (refl, tt));
  tokens = tt;
  counted = refl;
  bounded = omega arith;
}
