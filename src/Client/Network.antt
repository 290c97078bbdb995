-- ===== src/Client/Network.antt =====
-- CodeNamesClient/src/core/IOCPClient.cpp, and the callbacks that CodeNamesClient/src/main.cpp
-- registers with it. What Winsock and the completion port answer are arguments; what the port holds
-- is part of the state, as a queue that the system fills and the worker thread empties.
pub mod Runs
pub mod Ordering
pub mod Early
pub mod Closing
pub mod Limits
use codenames_cpp_vibecoding.Prelude.{
  ℕ, zero, suc, Bool, true, false, not, List, [], ◌∷◌, ◌++◌, Option, none, some, if◌then◌else◌, ltb,
  length, ℤ, pos, negsuc,
}
use codenames_cpp_vibecoding.Text.{Bytes, text, is_empty, stoi}

-- What GetQueuedCompletionStatus brings: ERROR_OPERATION_ABORTED, another error, the null structure
-- that Close posts, the bytes of a receive with whether the next WSARecv can be posted, and the end
-- of a send.
pub data Completion : Type 0 where
  aborted failed signal : Completion
  received : Bytes → Bool → Completion
  send_done : Completion

-- The worker thread: not created, in front of the test of its loop, in GetQueuedCompletionStatus,
-- left, and joined.
pub data Thread : Type 0 where
  no_thread testing waiting ended joined : Thread

-- The functions that the callbacks put into g_mainTasks.
pub data Task : Type 0 where
  enter_lobby show_disconnected : Task

-- `registered` tells whether main's callbacks are set; `socket` and `port` whether socket_ and
-- iocpHandle_ are valid; `completions` is what waits at the port; `wire` is what WSASend accepted.
pub record Network : Type 0 where
  pub registered : Bool
  pub socket : Bool
  pub port : Bool
  pub connected : Bool
  pub thread : Thread
  pub completions : List Completion
  pub packet_queue : List Bytes
  pub main_tasks : List Task
  pub wire : List Bytes

unfoldable pub new_network : Network
new_network = record {
  registered = false;
  socket = false;
  port = false;
  connected = false;
  thread = no_thread;
  completions = [];
  packet_queue = [];
  main_tasks = [];
  wire = [];
}

abbrev pub buffer_size : ℕ
buffer_size = 2048

unfoldable pub on_network_data_received : Bytes → Network → Network
on_network_data_received d n = record n { packet_queue = n.packet_queue ++ d ∷ [] }

unfoldable pub on_network_connected : Network → Network
on_network_connected n = record n { main_tasks = n.main_tasks ++ enter_lobby ∷ [] }

unfoldable pub on_network_disconnected : Network → Network
on_network_disconnected n = record n { main_tasks = n.main_tasks ++ show_disconnected ∷ [] }

unfoldable pub process_received_data : Bytes → Network → Network
unfolding on_network_data_received
process_received_data d n = if n.registered then on_network_data_received d n else n

-- Which of the calls of Initialize succeed: WSAStartup, the port, the socket, and the two tied.
pub record Startup : Type 0 where
  pub started : Bool
  pub port_made : Bool
  pub socket_made : Bool
  pub tied : Bool

unfoldable pub cleanup_iocp : Network → Network
cleanup_iocp n = record n { socket = false; port = false }

unfoldable pub initialize_iocp : Startup → Network → Network × Bool
unfolding cleanup_iocp
initialize_iocp u n =
    if u.port_made
    then (let opened : Network = record n { port = true; socket = u.socket_made } in
        if u.socket_made
        then (if u.tied
            then (record opened { thread = testing }, true)
            else (cleanup_iocp opened, false))
        else (cleanup_iocp opened, false))
    else (record n { port = false }, false)

unfoldable pub initialize : Startup → Network → Network × Bool
unfolding initialize_iocp
initialize u n = if u.started then initialize_iocp u n else (n, false)

unfoldable pub disconnect : Network → Network
unfolding on_network_disconnected
disconnect n =
    let down : Network = record n { connected = false; socket = false } in
    if n.registered then on_network_disconnected down else down

-- What inet_pton, connect and the first WSARecv answer.
pub record Dial : Type 0 where
  pub is_address : Bool
  -- connect succeeds or fails with WSAEWOULDBLOCK
  pub reached : Bool
  pub posted : Bool

unfoldable pub connect : Dial → Network → Network × Bool
unfolding on_network_connected
connect k n =
    if k.is_address
    then (if k.reached
        then (let up : Network = record n { connected = true } in
            let told = if n.registered then on_network_connected up else up in
            if k.posted then (told, true) else (record told { connected = false }, false))
        else (n, false))
    else (n, false)

-- `accepted` tells whether WSASend succeeds or is pending.
unfoldable pub send_data : Bool → Bytes → Network → Network × Bool
send_data accepted d n =
    if n.connected
    then (if ltb buffer_size (length d)
        then (n, false)
        else if is_empty d
        then (n, false)
        else if accepted
        then (record n { wire = n.wire ++ d ∷ [] }, true)
        else (n, false))
    else (n, false)

abbrev pub leave : Network → Network
leave n = record n { thread = ended }

-- A round of WorkerThread behind GetQueuedCompletionStatus.
unfoldable pub worker_takes : Completion → Network → Network
unfolding disconnect process_received_data
worker_takes aborted n = leave n
worker_takes failed n = leave (disconnect n)
worker_takes signal n = leave n
worker_takes (received d posted) n =
    if is_empty d
    then leave (disconnect n)
    else (let fed = process_received_data d n in
        if posted then record fed { thread = testing } else leave (disconnect fed))
worker_takes send_done n = record n { thread = testing }

worker_waits : List Completion → Network → Network
unfolding worker_takes
worker_waits [] n = n
worker_waits (k ∷ ks) n = worker_takes k (record n { completions = ks })

-- What the worker thread does next: the test of its loop, or the wait for a completion.
unfoldable pub worker_at : Thread → Network → Network
unfolding worker_waits worker_takes
worker_at no_thread n = n
worker_at testing n = record n { thread = if n.connected then waiting else ended }
worker_at waiting n = worker_waits n.completions n
worker_at ended n = n
worker_at joined n = n

abbrev pub worker_step : Network → Network
worker_step n = worker_at n.thread n

-- The worker alone for a number of steps, while main waits in join.
unfoldable pub worker_steps : ℕ → Network → Network
worker_steps zero n = n
worker_steps (suc k) n = worker_steps k (worker_step n)

unfoldable pub is_joinable : Thread → Bool
is_joinable no_thread = false
is_joinable testing = true
is_joinable waiting = true
is_joinable ended = true
is_joinable joined = false

-- join returns when the thread has left its loop.
abbrev pub join_thread : Thread → Thread
join_thread ended = joined
join_thread t = t

unfoldable pub post_signal : Network → Network
post_signal n = if n.port then record n { completions = n.completions ++ signal ∷ [] } else n

-- Two steps of the worker are given to join.
unfoldable pub join_worker : Network → Network
unfolding worker_steps
join_worker n = let rest = worker_steps 2 n in record rest { thread = join_thread rest.thread }

unfoldable pub stop_worker : Network → Network
unfolding is_joinable post_signal join_worker
stop_worker n = if is_joinable n.thread then join_worker (post_signal n) else n

-- IOCPClient::Close, which the destructor calls.
unfoldable pub close_client : Network → Network
unfolding disconnect stop_worker
close_client n = record (stop_worker (disconnect n)) { port = false }

-- The address and port of main: two arguments behind the program's name replace both.
unfoldable pub server_address : List Bytes → Option (Bytes × ℤ)
server_address (program ∷ ip ∷ number ∷ more) = elim (stoi number) [
  | none ↦ none
  | some port ↦ some (ip, port)
]
server_address (program ∷ ip ∷ []) = some (text "127.0.0.1", pos 55014)
server_address (program ∷ []) = some (text "127.0.0.1", pos 55014)
server_address [] = some (text "127.0.0.1", pos 55014)

-- What main does once the client is initialized; `run` is what happens until GUIManager::Run returns.
connect_and_run :
    Option (Bytes × ℤ) → (Bytes → ℤ → Dial) → (Network → Network) → Network → Network × ℤ
unfolding connect disconnect
connect_and_run none dial run n = (n, negsuc 0)
connect_and_run (some (ip, port)) dial run n =
    let (met, ok) = connect (dial ip port) n in
    if ok then (disconnect (run met), pos 0) else (met, negsuc 0)

-- main of the client, with what the destructor of the client does at the end.
unfoldable pub client_main :
    List Bytes → Startup → (Bytes → ℤ → Dial) → (Network → Network) → Network × ℤ
unfolding connect_and_run initialize close_client new_network
client_main args u dial run =
    let (begun, ok) = initialize u (record new_network { registered = true }) in
    let (last, code) =
      if ok then connect_and_run (server_address args) dial run begun else (begun, negsuc 0) in
    (close_client last, code)
