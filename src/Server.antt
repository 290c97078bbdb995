-- ===== src/Server.antt =====
-- CodeNamesServer/src/IOCPServer.cpp: the managers put together, and the game rooms.
pub mod Receive
pub mod Rooms
pub mod Enrolled
pub mod Network
pub mod Turns
pub mod Entry
use codenames_cpp_vibecoding.Prelude.{
  ℕ, suc, ◌==◌, Bool, true, false, not, List, [], ◌∷◌, ◌++◌, Option, none, some, if◌then◌else◌,
  length,
}
use codenames_cpp_vibecoding.Assoc
use codenames_cpp_vibecoding.Text.{Bytes, text, bytes_eq, to_string_ℕ}
use codenames_cpp_vibecoding.Protocol.{pkt_game_create_error}
use codenames_cpp_vibecoding.Session.{
  World, Session, SessionState, in_game, in_lobby, modify, post_send, set_state, set_game_manager,
  set_in_matching_queue,
}
use codenames_cpp_vibecoding.Game.{Game, Room, CardType, new_game, max_players}
use codenames_cpp_vibecoding.Game.Roster.{add_player}
use codenames_cpp_vibecoding.Game.Start.{start_game, destroy}
use codenames_cpp_vibecoding.SessionManager.{
  SessionManager, Hub, add_session, remove_session, disconnect_all,
}

-- activeGames_ maps a room's name to a game, by pointer; `games` is the memory that the pointers
-- lead to, `fresh` the next free address.
pub record Server : Type 0 where
  pub is_running : Bool
  pub hub : Hub
  pub active_games : List (Bytes × ℕ)
  pub games : ℕ → Game
  pub fresh : ℕ

unfoldable pub put_game : (ℕ → Game) → ℕ → Game → ℕ → Game
put_game games g game q = if q == g then game else games q

-- The game at an address with the sessions, and back.
abbrev pub room_at : ℕ → Server → Room
room_at g v = record { game = v.games g; world = v.hub.world }

abbrev pub with_world : World → Server → Server
with_world w v = record v { hub = record (v.hub) { world = w } }

unfoldable pub with_room : ℕ → Room → Server → Server
unfolding put_game
with_room g r v = record v {
  games = put_game v.games g r.game;
  hub = record (v.hub) { world = r.world };
}

-- The unique_ptr of a room goes away: the destructor of its GameManager runs.
destroy_at : Option ℕ → Server → Server
destroy_at none v = v
destroy_at (some g) v = with_room g (destroy (room_at g v)) v

-- IOCPServer::RemoveGameRoom.
unfoldable pub remove_game_room : Bytes → Server → Server
unfolding destroy_at with_room
remove_game_room room_id v =
    destroy_at (Assoc.lookup bytes_eq room_id v.active_games)
      (record v { active_games = Assoc.erase bytes_eq room_id v.active_games })

-- `activeGames_[roomId] = std::make_unique<GameManager>(roomId)`: a game that had the name is
-- destroyed.
unfoldable pub place_game : Bytes → Server → Server
unfolding destroy_at with_room put_game
place_game room_id v = destroy_at (Assoc.lookup bytes_eq room_id v.active_games) (record v {
  active_games = Assoc.insert bytes_eq room_id v.fresh v.active_games;
  games = put_game v.games v.fresh (new_game room_id);
  fresh = suc v.fresh;
})

-- What CreateGameRoom sets in the session of a player.
unfoldable pub enter : ℕ → ℕ → World → World
enter g p w =
    modify p (set_in_matching_queue false)
      (modify p (set_state in_game) (modify p (set_game_manager (some g)) w))

-- The loop over the players, at the room of the game at `g`; closed sessions are passed over.
unfoldable pub seat_players : ℕ → List ℕ → Room → Room
unfolding enter
seat_players g [] r = r
seat_players g (p ∷ ps) r = seat_players g ps (
    if (r.world.sessions p).is_closed
    then r
    else record { game = (add_player (some p) r.game).0; world = enter g p r.world })

-- The handler of the outer catch: the players go back to the lobby and are told.
unfoldable pub turn_back : List ℕ → World → World
turn_back [] w = w
turn_back (p ∷ ps) w = turn_back ps (
    if (w.sessions p).is_closed
    then w
    else post_send p pkt_game_create_error (
        modify p (set_in_matching_queue false)
          (modify p (set_game_manager none) (modify p (set_state in_lobby) w))))

abbrev pub room_name : ℕ → Bytes
room_name now = text "room_" ++ to_string_ℕ now

-- IOCPServer::CreateGameRoom. `now` is std::time(nullptr), for the room's name and for StartGame.
unfoldable pub create_game_room :
    Option Bytes → (List CardType → List CardType) → ℕ → List ℕ → Server → Server
create_game_room file shuffle now players v =
    if length players == max_players
    then (let placed = place_game (room_name now) v in
        let g = v.fresh in
        let (r, started) =
          start_game file shuffle now (seat_players g players (room_at g placed)) in
        let running = with_room g r placed in
        if started
        then running
        else (let closed = remove_game_room (room_name now) running in
            with_world (turn_back players closed.hub.world) closed))
    else v

-- IOCPServer::AddSession: what SessionManager::AddSession returns is not read.
know_server : Session → Session
know_server s = record s { server = true }

unfoldable pub register_session : ℕ → Hub → Hub × Bool
unfolding know_server
register_session p h = (
  record h {
    manager = (add_session (some p) h.manager h.world).0;
    world = modify p know_server h.world;
  },
  true,
)

-- The games are destroyed in the order of the map.
destroy_each : List (Bytes × ℕ) → Server → Server
unfolding destroy_at
destroy_each [] v = v
destroy_each ((name, g) ∷ rest) v = destroy_each rest (destroy_at (some g) v)

-- IOCPServer::Stop.
unfoldable pub stop : Server → Server
unfolding destroy_each destroy_at with_room
stop v =
    if v.is_running
    then (let quiet = destroy_each v.active_games (record v { is_running = false }) in
        let (m, w) = disconnect_all quiet.hub.manager quiet.hub.world in
        record quiet { active_games = []; hub = record (quiet.hub) { manager = m; world = w } })
    else v
