-- ===== src/SessionManager.antt =====
-- CodeNamesServer/src/SessionManager.cpp and include/SessionManager.h: the registry of sessions and
-- the matching queue. Each call holds sessionMutex_ from its beginning, so it is one step.
pub mod Registry
pub mod Waiting
pub mod Lobby
pub mod Auth
use codenames_cpp_vibecoding.Prelude.{
  ℕ, ◌+◌, ◌-◌, ◌^◌, ◌%◌, ◌==◌, Bool, true, false, not, ◌&&◌, List, [], ◌∷◌, ◌++◌, Option, none,
  some, if◌then◌else◌, keep_if, map,
}
use codenames_cpp_vibecoding.Assoc
use codenames_cpp_vibecoding.Outcome.{Outcome, returned, locking}
use codenames_cpp_vibecoding.Text.{Bytes, is_empty, bytes_eq}
use codenames_cpp_vibecoding.Session.{
  World, Session, invalid_socket, modify, post_send, set_in_matching_queue,
}

abbrev pub nat_eq : ℕ → ℕ → Bool
nat_eq a b = a == b

-- sessions_ maps a socket to a session's pointer, tokenToSocket_ a token to a socket.
pub record SessionManager : Type 0 where
  pub sessions : List (ℕ × ℕ)
  pub token_to_socket : List (Bytes × ℕ)
  pub matching_queue : List ℕ
  pub session_count : ℕ

-- size_t
abbrev pub word_mod : ℕ
word_mod = 2 ^ 64

unfoldable pub new_session_manager : SessionManager
new_session_manager = record {
  sessions = [];
  token_to_socket = [];
  matching_queue = [];
  session_count = 0;
}

-- The registration of a token that is not empty; `none` where it is taken.
register_token : Bytes → ℕ → List (Bytes × ℕ) → Option (List (Bytes × ℕ))
register_token token socket m =
    if is_empty token
    then some m
    else if Assoc.contains bytes_eq token m
    then none
    else some (Assoc.insert bytes_eq token socket m)

-- `none` is the null session. A taken token rolls the insertion back.
unfoldable pub add_session : Option ℕ → SessionManager → World → SessionManager × Bool
unfolding register_token
add_session none m w = (m, false)
add_session (some p) m w =
    let s = w.sessions p in
    if Assoc.contains nat_eq s.socket m.sessions
    then (m, false)
    else let added = Assoc.insert nat_eq s.socket p m.sessions in
      elim (register_token s.token s.socket m.token_to_socket) [
        | none ↦ (record m { sessions = Assoc.erase nat_eq s.socket added }, false)
        | some tokens ↦ (
          record m {
            sessions = added;
            token_to_socket = tokens;
            session_count = (m.session_count + 1) % word_mod;
          },
          true,
        )
      ]

unfoldable pub remove_session : ℕ → SessionManager → World → SessionManager
remove_session socket m w =
    if socket == invalid_socket then m else elim (Assoc.lookup nat_eq socket m.sessions) [
      | none ↦ m
      | some p ↦
          let token = (w.sessions p).token in
          record m {
            token_to_socket =
                if is_empty token
                then m.token_to_socket
                else Assoc.erase bytes_eq token m.token_to_socket;
            sessions = Assoc.erase nat_eq socket m.sessions;
            session_count = (m.session_count + (word_mod - 1)) % word_mod;
          }
    ]

-- `held`: whether the calling thread holds sessionMutex_ already.
unfoldable pub find_session : Bool → ℕ → SessionManager → Outcome (Option ℕ)
find_session held socket m = locking held (returned (Assoc.lookup nat_eq socket m.sessions))

unfoldable pub find_session_by_token : Bool → Bytes → SessionManager → Outcome (Option ℕ)
unfolding find_session
find_session_by_token held token m =
    locking held (elim (Assoc.lookup bytes_eq token m.token_to_socket) [
      | none ↦ returned none
      | some socket ↦ find_session true socket m
    ])

unfoldable pub validate_token : Bytes → SessionManager → Bool
validate_token token m = not (Assoc.contains bytes_eq token m.token_to_socket)

-- A manager and the sessions that it refers to, with the threads that were started to create a
-- game room and have not run yet.
pub record Hub : Type 0 where
  pub manager : SessionManager
  pub world : World
  pub requests : List (List ℕ)

unfoldable pub add_to_matching_queue : Option ℕ → Hub → Hub × Bool
add_to_matching_queue none h = (h, false)
add_to_matching_queue (some p) h =
    let socket = (h.world.sessions p).socket in
    if Assoc.contains nat_eq socket h.manager.sessions
    then (
      record h {
        manager = record (h.manager) { matching_queue = h.manager.matching_queue ++ socket ∷ [] };
        world = modify p (set_in_matching_queue true) h.world;
      },
      true,
    )
    else (h, false)

-- Only the flag is cleared; the entry stays in the queue.
unfoldable pub remove_from_matching_queue : Option ℕ → Hub → Hub
remove_from_matching_queue none h = h
remove_from_matching_queue (some p) h = record h {
  world = modify p (set_in_matching_queue false) h.world;
}

-- The session behind a queued socket, if it is registered and still waiting.
waiting_one : List (ℕ × ℕ) → World → ℕ → Option ℕ
waiting_one registered w socket = elim (Assoc.lookup nat_eq socket registered) [
  | none ↦ none
  | some p ↦ if (w.sessions p).is_in_matching_queue then some p else none
]

-- The loop over the queue: the players found, and the cleaned queue.
drain : List (ℕ × ℕ) → World → List ℕ → List ℕ × List ℕ
unfolding waiting_one
drain m w [] = ([], [])
drain m w (socket ∷ queue) =
    let rest = drain m w queue in
    elim (waiting_one m w socket) [ none ↦ rest | some p ↦ (p ∷ rest.0, socket ∷ rest.1) ]

unfoldable pub get_waiting_players : SessionManager → World → List ℕ × SessionManager
unfolding drain
get_waiting_players m w =
    let (players, queue) = drain m.sessions w m.matching_queue in
    (players, record m { matching_queue = queue })

-- The copied list of sessions, in the order of the map.
abbrev pub session_list : SessionManager → List ℕ
session_list m = map (λ e. e.1) m.sessions

send_each : Bytes → List ℕ → World → World
send_each message [] w = w
send_each message (p ∷ ps) w =
    send_each message ps (if (w.sessions p).is_closed then w else post_send p message w)

-- SessionManager::BroadcastToAll.
unfoldable pub broadcast_to_sessions : Bytes → SessionManager → World → World
unfolding send_each
broadcast_to_sessions message m w =
    if is_empty message then w else send_each message (session_list m) w

unfoldable pub close_flag : Session → Session
close_flag s = record s { is_closed = true }

unfoldable pub drop_socket : Session → Session
drop_socket s = record s { socket = invalid_socket }

-- Session::Close: the flag first, then the registry is told, if the session knows the server, and
-- the socket is closed. A second call does nothing.
unfoldable pub close_session : ℕ → SessionManager → World → SessionManager × World
unfolding close_flag drop_socket
close_session p m w =
    if (w.sessions p).is_closed
    then (m, w)
    else let socket = (w.sessions p).socket in
      let flagged = modify p close_flag w in
      (
        if (w.sessions p).server then remove_session socket m flagged else m,
        if socket == invalid_socket then flagged else modify p drop_socket flagged,
      )

close_each : List ℕ → SessionManager → World → SessionManager × World
close_each [] m w = (m, w)
close_each (p ∷ ps) m w = let (m', w') = close_session p m w in close_each ps m' w'

unfoldable pub disconnect_all : SessionManager → World → SessionManager × World
unfolding close_each new_session_manager
disconnect_all m w = close_each (session_list m) new_session_manager w
