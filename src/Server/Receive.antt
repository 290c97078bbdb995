-- ===== src/Server/Receive.antt =====
-- Session::ProcessRecv of CodeNamesServer/src/Session.cpp, and HandleNewClient and
-- ProcessCompletionPacket of CodeNamesServer/src/NetworkManager.cpp: from a completed I/O operation
-- to the manager that handles it. Whether WSARecv and the IOCP calls succeed are arguments.
use codenames_cpp_vibecoding.Prelude.{ℕ, Bool, Option, none, some, if◌then◌else◌}
use codenames_cpp_vibecoding.Outcome.{Outcome, returned, ◌>>=◌}
use codenames_cpp_vibecoding.Text.{Bytes, is_empty}
use codenames_cpp_vibecoding.Protocol.{pkt_game_not_implemented}
use codenames_cpp_vibecoding.Session.{
  SessionState, authenticating, waiting_match, in_lobby, in_game, IoOperation, accept, recv, send,
  new_session, update, post_send,
}
use codenames_cpp_vibecoding.Game.Play.{handle_game_packet}
use codenames_cpp_vibecoding.Database.{Sqlite, Db}
use codenames_cpp_vibecoding.SessionManager.{close_session}
use codenames_cpp_vibecoding.SessionManager.Lobby.{handle_lobby_packet}
use codenames_cpp_vibecoding.SessionManager.Auth.{handle_auth_protocol}
use codenames_cpp_vibecoding.Server.{Server, room_at, with_room, with_world, register_session}

-- Session::Close on the server.
unfoldable pub close : ℕ → Server → Server
close p v =
    let (m, w) = close_session p v.hub.manager v.hub.world in
    record v { hub = record (v.hub) { manager = m; world = w } }

-- The game of a session, or the answer that there is none.
game_packet : Option ℕ → ℕ → Bytes → Server → Server
game_packet none p content v = with_world (post_send p pkt_game_not_implemented v.hub.world) v
game_packet (some g) p content v = with_room g (handle_game_packet (some p) content (room_at g v)) v

module _ (S : Sqlite) (hash : Bytes → ℕ) (salt_draws token_draws : ℕ → ℕ) where
  -- The switch on currentState_. Without a server there is no session manager, and nothing happens.
  unfoldable pub dispatch : SessionState → ℕ → Bytes → Server → Db S → Outcome (Server × Db S)
  unfolding game_packet
  dispatch authenticating p content v d =
      if (v.hub.world.sessions p).server
      then (handle_auth_protocol S hash salt_draws token_draws p content v.hub.world d >>= λ r.
          returned (with_world r.0 v, r.1))
      else returned (v, d)
  dispatch waiting_match p content v d = returned (
    if (v.hub.world.sessions p).server
        then record v { hub = handle_lobby_packet p content v.hub }
        else v,
    d,
  )
  dispatch in_lobby p content v d = returned (
    if (v.hub.world.sessions p).server
        then record v { hub = handle_lobby_packet p content v.hub }
        else v,
    d,
  )
  dispatch in_game p content v d =
      returned (game_packet (v.hub.world.sessions p).game_manager p content v, d)

  -- `content` is what was received, empty for 0 bytes; `posted` whether the next receive could be
  -- posted.
  unfoldable pub process_recv : Bool → ℕ → Bytes → Server → Db S → Outcome (Server × Db S)
  process_recv posted p content v d =
      if is_empty content
      then returned (close p v, d)
      else (dispatch (v.hub.world.sessions p).current_state p content v d >>= λ r.
          returned (if posted then r.0 else close p r.0, r.1))

  -- ProcessCompletionPacket for a session and an overlapped structure that are not null.
  unfoldable pub process_completion :
      Bool → IoOperation → ℕ → Bytes → Server → Db S → Outcome (Server × Db S)
  process_completion posted recv p content v d = process_recv posted p content v d
  process_completion posted send p content v d = returned (v, d)
  process_completion posted accept p content v d = returned (v, d)

-- HandleNewClient for a session allocated at `p`: `associated` and `posted` tell whether the socket
-- could be tied to the completion port, and the first receive posted.
unfoldable pub handle_new_client : Bool → Bool → Bool → ℕ → ℕ → Server → Server
handle_new_client associated posted stale p socket v =
    let w = v.hub.world in
    let born = record w { sessions = update w.sessions p (new_session socket stale) } in
    if associated
    then (let (h, added) = register_session p (record (v.hub) { world = born }) in
        let joined = record v { hub = h } in if posted then joined else close p joined)
    else with_world born v
