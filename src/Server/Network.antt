-- ===== src/Server/Network.antt =====
-- CodeNamesServer/src/NetworkManager.cpp: the threads of the server, from Initialize to the
-- destructor, with Initialize and Start of IOCPServer.cpp and main.cpp. What Winsock, the completion
-- port and the opening of the database answer are arguments.
pub mod Stopping
pub mod Draining
use codenames_cpp_vibecoding.Prelude.{
  ℕ, zero, suc, ◌+◌, ◌-◌, Bool, true, false, not, List, [], ◌∷◌, ◌++◌, Option, none, some,
  if◌then◌else◌, map, length, ℤ, pos, negsuc,
}
use codenames_cpp_vibecoding.Outcome.{Outcome, returned, ◌>>=◌}
use codenames_cpp_vibecoding.Text.{Bytes}
use codenames_cpp_vibecoding.Session.{IoOperation}
use codenames_cpp_vibecoding.Database.{Sqlite, Db}
use codenames_cpp_vibecoding.Server.{Server, stop}
use codenames_cpp_vibecoding.Server.Receive.{close, process_completion, handle_new_client}

-- A thread in front of the test of its loop, in the call in which it may block, and behind the loop.
pub data Worker : Type 0 where
  at_test blocking left : Worker

-- `is_running`, `listen_socket` and `iocp` are isRunning_ and whether the handles are valid;
-- `accept_thread` is `none` before StartAccept; `signals` counts the null structures at the port.
pub record NetworkManager : Type 0 where
  pub is_running : Bool
  pub listen_socket : Bool
  pub iocp : Bool
  pub accept_thread : Option Worker
  pub workers : List Worker
  pub signals : ℕ

-- Which of the calls of CreateListenSocket succeed; setsockopt is not tested.
pub record Listening : Type 0 where
  pub socket_made : Bool
  pub bound : Bool
  pub listens : Bool

unfoldable pub create_listen_socket : Listening → Bool
create_listen_socket l =
    if l.socket_made
    then (if l.bound then (if l.listens then true else false) else false)
    else false

-- The constructor: `none` where it throws.
unfoldable pub new_network_manager : Bool → Listening → Option NetworkManager
unfolding create_listen_socket
new_network_manager started l =
    if started
    then (if create_listen_socket l
        then some (record {
          is_running = false;
          listen_socket = true;
          iocp = false;
          accept_thread = none;
          workers = [];
          signals = 0;
        })
        else none)
    else none

unfoldable pub create_iocp : Bool → NetworkManager → NetworkManager × Bool
create_iocp made n = (record n { iocp = made }, made)

-- Each thread begins at the test of its loop.
unfoldable pub create_worker_threads : ℕ → NetworkManager → NetworkManager
create_worker_threads zero n = n
create_worker_threads (suc k) n =
    create_worker_threads k (record n { workers = n.workers ++ at_test ∷ [] })

abbrev pub worker_thread_count : ℕ
worker_thread_count = 4

-- A worker that is chosen to go on: the test of isRunning_, or the null structure if there is one.
-- Such a completion has the result TRUE, so ProcessCompletionPacket returns at once.
-- With it stands what is left of the signals.
unfoldable pub worker_goes : Bool → ℕ → Worker → Worker × ℕ
worker_goes running k at_test = (if running then blocking else left, k)
worker_goes running zero blocking = (blocking, zero)
worker_goes running (suc k) blocking = (at_test, k)
worker_goes running k left = (left, k)

-- Each worker goes on once, in the order of the vector.
unfoldable pub each_worker : Bool → ℕ → List Worker → List Worker × ℕ
unfolding worker_goes
each_worker running k [] = ([], k)
each_worker running k (t ∷ ts) =
    let (t', k') = worker_goes running k t in
    let (ts', last) = each_worker running k' ts in (t' ∷ ts', last)

-- The workers that reach their test before Initialize sets isRunning_, by their numbers; the others
-- stay in front of it.
unfoldable pub early_tests : Bool → List Bool → List Worker → List Worker
unfolding worker_goes
early_tests running [] ts = ts
early_tests running (b ∷ bs) [] = []
early_tests running (b ∷ bs) (t ∷ ts) =
    (if b then (worker_goes running 0 t).0 else t) ∷ early_tests running bs ts

unfoldable pub workers_go : NetworkManager → NetworkManager
unfolding each_worker worker_goes
workers_go n =
    let (ts, k) = each_worker n.is_running n.signals n.workers in
    record n { workers = ts; signals = k }

-- Initialize; `early` tells which workers reach their test before isRunning_ is set.
unfoldable pub initialize : Bool → List Bool → NetworkManager → NetworkManager × Bool
unfolding create_iocp create_worker_threads early_tests
initialize made early n =
    let (ported, ok) = create_iocp made n in
    if ok
    then (let threaded = create_worker_threads worker_thread_count ported in
        let tested = early_tests threaded.is_running early threaded.workers in
        (record threaded { workers = tested; is_running = true }, true))
    else (ported, false)

unfoldable pub start_accept : NetworkManager → NetworkManager
start_accept n = record n { accept_thread = some at_test }

-- The accept thread goes on: on an open socket accept returns if a client comes and blocks otherwise,
-- and it fails on a closed one. What the new client changes is no part of this record.
unfoldable pub accept_step : Bool → Bool → Bool → Option Worker → Option Worker
accept_step running listening comes none = none
accept_step running listening comes (some at_test) = some (if running then blocking else left)
accept_step running listening comes (some blocking) =
    some (if listening then (if comes then at_test else blocking) else at_test)
accept_step running listening comes (some left) = some left

unfoldable pub accept_goes : Bool → NetworkManager → NetworkManager
unfolding accept_step
accept_goes comes n = record n {
  accept_thread = accept_step n.is_running n.listen_socket comes n.accept_thread;
}

unfoldable pub shutdown : NetworkManager → NetworkManager
shutdown n = record n { is_running = false; listen_socket = false }

-- One signal for each thread, if there is a port.
unfoldable pub post_signals : NetworkManager → NetworkManager
post_signals n = if n.iocp then record n { signals = n.signals + length n.workers } else n

unfoldable pub all_left : List Worker → Bool
all_left [] = true
all_left (left ∷ ts) = all_left ts
all_left (_ ∷ ts) = false

unfoldable pub has_left : Option Worker → Bool
has_left none = true
has_left (some left) = true
has_left (some _) = false

-- The destructor behind the join of the accept thread: the signals, and the joins of the workers.
unfoldable pub join_workers : NetworkManager → Option NetworkManager
unfolding post_signals workers_go all_left
join_workers n =
    let ended = workers_go (workers_go (post_signals n)) in
    if all_left ended.workers
    then some (record ended { listen_socket = false; iocp = false })
    else none

-- The destructor: `none` where a join does not return. The thread that is joined goes on twice, and
-- so does each worker. `comes` tells whether a client connects while the accept thread is joined.
unfoldable pub destroy_manager : Bool → NetworkManager → Option NetworkManager
unfolding accept_goes has_left join_workers
destroy_manager comes n =
    let stopped = accept_goes comes (accept_goes comes (record n { is_running = false })) in
    if has_left stopped.accept_thread then join_workers stopped else none

-- What GetQueuedCompletionStatus brings to a worker: FALSE without a structure; FALSE with one, with
-- the session if the key is not null; and TRUE, with the session and the structure where they are not
-- null. A structure holds the operation, what was received, and whether the next receive can be
-- posted.
pub data Arrival : Type 0 where
  port_closed : Arrival
  io_failed : Option ℕ → Arrival
  completed : Option ℕ → Option (Bool × IoOperation × Bytes) → Arrival

module _ (S : Sqlite) (hash : Bytes → ℕ) (salt_draws token_draws : ℕ → ℕ) where
  unfoldable pub process_completion_packet :
      Option ℕ → Option (Bool × IoOperation × Bytes) → Server → Db S → Outcome (Server × Db S)
  process_completion_packet none o v d = returned (v, d)
  process_completion_packet (some p) none v d = returned (v, d)
  process_completion_packet (some p) (some (posted, op, content)) v d =
      process_completion S hash salt_draws token_draws posted op p content v d

  -- The body of the loop of WorkerThreads: what is left, and whether the loop goes on.
  unfoldable pub worker_round : Arrival → Server → Db S → Outcome ((Server × Db S) × Bool)
  unfolding process_completion_packet
  worker_round port_closed v d = returned ((v, d), false)
  worker_round (io_failed none) v d = returned ((v, d), true)
  worker_round (io_failed (some p)) v d = returned ((close p v, d), true)
  worker_round (completed s o) v d = process_completion_packet s o v d >>= λ r. returned (r, true)

  -- A worker's loop over what it is brought, each with isRunning_ as the test before finds it.
  unfoldable pub worker_loop : List (Bool × Arrival) → Server → Db S → Outcome (Server × Db S)
  unfolding worker_round
  worker_loop [] v d = returned (v, d)
  worker_loop ((running, a) ∷ rest) v d = elim running [
    | false ↦ returned (v, d)
    | true ↦ worker_round a v d >>= λ r. elim r.1 [
      | true ↦ worker_loop rest r.0.0 r.0.1
      | false ↦ returned r.0
    ]
  ]

-- A socket that accept brings: whether it can be tied to the port and the first receive posted, the
-- stale byte of the session, its address and the socket.
pub record Accepted : Type 0 where
  pub associated : Bool
  pub posted : Bool
  pub stale : Bool
  pub address : ℕ
  pub socket : ℕ

-- The loop of the accept thread, `none` for a failed accept.
unfoldable pub accept_loop : List (Bool × Option Accepted) → Server → Server
accept_loop [] v = v
accept_loop ((running, none) ∷ rest) v = if running then accept_loop rest v else v
accept_loop ((running, some a) ∷ rest) v =
    if running
    then accept_loop rest (handle_new_client a.associated a.posted a.stale a.address a.socket v)
    else v

-- IOCPServer with its network manager, null before Initialize.
pub record System : Type 0 where
  pub server : Server
  pub network : Option NetworkManager

-- IOCPServer::Initialize; `none` where the constructor of NetworkManager throws.
unfoldable pub initialize_server :
    Bool → Bool → Listening → Bool → List Bool → System → Option (System × Bool)
unfolding initialize new_network_manager
initialize_server db_opened started l made early y =
    if db_opened
    then elim (new_network_manager started l) [
      | none ↦ none
      | some n ↦ let (m, ok) = initialize made early n in some (record y { network = some m }, ok)
    ]
    else some (y, false)

unfoldable pub start_server : System → System
unfolding start_accept
start_server y = if y.server.is_running then y else elim y.network [
  | none ↦ record y { server = record (y.server) { is_running = true } }
  | some n ↦ record y {
    server = record (y.server) { is_running = true };
    network = some (start_accept n);
  }
]

-- IOCPServer::Stop with its network manager, `stop` for the rest.
unfoldable pub stop_server : System → System
unfolding shutdown
stop_server y =
    if y.server.is_running
    then record {
      server = stop y.server;
      network = elim y.network [ none ↦ none | some n ↦ some (shutdown n) ];
    }
    else y
