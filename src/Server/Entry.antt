-- ===== src/Server/Entry.antt =====
-- CodeNamesServer/src/main.cpp, with the destructor of IOCPServer: from the start of the server to
-- its end.
use codenames_cpp_vibecoding.Prelude.{
  ◌≡◌, refl, Bool, true, false, List, [], ◌∷◌, Option, none, some, if◌then◌else◌, ℤ, pos, negsuc,
  Bool-cases, inl, inr,
}
use codenames_cpp_vibecoding.SessionManager.{disconnect_all}
use codenames_cpp_vibecoding.Server.{Server, stop, destroy_each}
use codenames_cpp_vibecoding.Server.Network.{
  Listening, NetworkManager, Worker, at_test, System, new_network_manager, create_listen_socket,
  initialize, create_iocp, create_worker_threads, early_tests, start_accept, shutdown,
  destroy_manager, initialize_server, start_server, stop_server,
}
use codenames_cpp_vibecoding.Server.Network.Stopping.{Ended, destroy_manager_free, closed_not_stuck}
use codenames_cpp_vibecoding.Server.Turns.{Turn, take_turns, take_turns-IsUp}

unfoldable pub system_turns : List Turn → System → System
system_turns ts y = elim y.network [
  | none ↦ y
  | some n ↦ let (m, v) = take_turns ts (n, y.server) in record { server = v; network = some m }
]

-- The destructor of SessionManager.
unfoldable pub destroy_sessions : Server → Server
destroy_sessions v =
    let (m, w) = disconnect_all v.hub.manager v.hub.world in
    record v { hub = record (v.hub) { manager = m; world = w } }

-- The destructor of activeGames_.
unfoldable pub forget_games : Server → Server
unfolding destroy_each
forget_games v = record (destroy_each v.active_games v) { active_games = [] }

-- The destructor of IOCPServer: it stops the server, and then its members go, the last one first:
-- the games that are left, the session manager, and then the network manager, whose worker threads have not been joined before. `comes` tells whether a client connects
-- during the join of the accept thread. `none` where a join does not return.
unfoldable pub destroy_server : Bool → System → Option System
unfolding destroy_sessions forget_games
destroy_server comes y =
    let stopped = stop_server y in
    let emptied = record stopped { server = destroy_sessions (forget_games stopped.server) } in
    elim stopped.network [
      | none ↦ some emptied
      | some n ↦ elim (destroy_manager comes n) [
        | none ↦ none
        | some m ↦ some (record emptied { network = some m })
      ]
    ]

-- ConsoleHandler: Ctrl-C and the closing of the console stop the server; for other events it reports
-- that it handled nothing.
unfoldable pub console_handler : Bool → System → System × Bool
console_handler is_close y = if is_close then (stop_server y, true) else (y, false)

with_code : ℤ → Option System → Option (System × ℤ)
with_code code none = none
with_code code (some y) = some (y, code)

-- main once Initialize has returned: the server runs until Ctrl-C, whose handler sets the event.
serve : List Turn → Bool → Option (System × Bool) → Option (System × ℤ)
unfolding system_turns destroy_server console_handler with_code
serve ts comes none = none
serve ts comes (some (y, ok)) =
    if ok
    then with_code (pos 0)
        (destroy_server comes (console_handler true (system_turns ts (start_server y))).0)
    else with_code (negsuc 0) (destroy_server comes y)

-- main: `none` where it ends by an exception or hangs.
unfoldable pub server_main :
    Bool
    → Bool
    → Bool
    → Listening
    → Bool
    → List Bool
    → List Turn
    → Bool
    → Server
    → Option (System × ℤ)
unfolding serve with_code
server_main event_made db_opened started l made early ts comes v =
    let y : System = record { server = v; network = none } in
    if event_made
    then serve ts comes (initialize_server db_opened started l made early y)
    else some (y, negsuc 0)

stop_server-network :
    (n : NetworkManager) (y : System)
    → y.network ≡ some (shutdown n)
    → (stop_server y).network ≡ some (shutdown n)
unfolding stop_server shutdown
stop_server-network n y e = elim (Bool-cases y.server.is_running) [
  | inl r ↦ simp (r, e) refl
  | inr r ↦ simp (r, e) refl
]

-- The system has ended.
abbrev pub HasEnded : System → Type 0
HasEnded y = (m : NetworkManager) × (y.network ≡ some m) × Ended m

shutdown_free :
    (comes : Bool) (n : NetworkManager)
    → n.iocp ≡ true
    → (m : NetworkManager) × (destroy_manager comes (shutdown n) ≡ some m) × Ended m
unfolding shutdown
shutdown_free comes n p =
    destroy_manager_free comes (shutdown n) p (closed_not_stuck comes n.accept_thread)

-- A system whose network manager has been shut down can be destroyed.
destroy_server_returns :
    (comes : Bool) (n : NetworkManager) (y : System)
    → n.iocp ≡ true
    → y.network ≡ some (shutdown n)
    → (z : System) × (destroy_server comes y ≡ some z) × HasEnded z
unfolding destroy_server
destroy_server_returns comes n y p e =
    let (m, returns, ended) = shutdown_free comes n p in
    (
      record { server = destroy_sessions (forget_games (stop_server y).server); network = some m },
      rw (stop_server-network n y e, destroy_server, returns) refl,
      (m, refl, ended),
    )

record Served (n : NetworkManager) (v : Server) (ts : List Turn) (comes : Bool) : Type 0 where
  last : System
  returns :
      serve ts comes (some (record { server = v; network = some n }, true)) ≡ some (last, pos 0)
  ended : HasEnded last

serve-Served :
    (n : NetworkManager) (v : Server) (ts : List Turn) (comes : Bool)
    → v.is_running ≡ false
    → n.iocp ≡ true
    → Served n v ts comes
unfolding serve start_server system_turns console_handler with_code stop_server start_accept
serve-Served n v ts comes r p =
    let begun : Server = record v { is_running = true } in
    let run = take_turns ts (start_accept n, begun) in
    let up = take_turns-IsUp ts (start_accept n) begun (record { port = p; runs = refl }) in
    let (z, returns, ended) =
      destroy_server_returns comes run.0
        (record { server = stop run.1; network = some (shutdown run.0) }) up.port refl in
    record { last = z; returns = simp (r, up.runs, returns) refl; ended = ended }

-- The manager behind Initialize.
abbrev opened : List Worker → NetworkManager
opened ws = record {
  is_running = true;
  listen_socket = true;
  iocp = true;
  accept_thread = none;
  workers = ws;
  signals = 0;
}

-- Let every call of Windows, Winsock and the database succeed. Whichever workers reach their test
-- before isRunning_ is set, and in whatever order the single workers and the accept thread go on
-- between Start and Ctrl-C, with whatever completions and clients, whose handlers return: main of
-- the server returns 0 after Ctrl-C, whether or not a client connects during the join of the accept
-- thread. Every worker has left its loop then, and the handles are closed. Behind Ctrl-C the workers
-- are brought nothing but the signals of the destructor.
pub server_main_returns :
    (l : Listening) (early : List Bool) (ts : List Turn) (comes : Bool) (v : Server)
    → create_listen_socket l ≡ true
    → v.is_running ≡ false
    → (y : System) × (server_main true true true l true early ts comes v ≡ some (y, pos 0))
      × HasEnded y
unfolding server_main initialize_server new_network_manager initialize create_iocp
    create_worker_threads
server_main_returns l early ts comes v s r =
    let tested = early_tests false early (at_test ∷ at_test ∷ at_test ∷ at_test ∷ []) in
    let served : Served (opened tested) v ts comes =
      serve-Served (opened tested) v ts comes r refl in
    rw s (served.last, served.returns, served.ended)
