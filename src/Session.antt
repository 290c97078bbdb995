-- ===== src/Session.antt =====
-- CodeNamesServer/include/Session.h and the state of CodeNamesServer/src/Session.cpp: what one
-- connection holds. Sessions are shared by pointer between the session manager, the game rooms and
-- the network layer, so they live on a heap: a pointer is a number, and the heap a function.
pub mod Heap
pub mod Sending
use codenames_cpp_vibecoding.Prelude.{
  ℕ, ◌-◌, ◌^◌, Bool, true, false, List, [], ◌∷◌, ◌++◌, Option, none, some, ltb, ◌==◌, if◌then◌else◌,
  length, ℤ, pos, not,
}
use codenames_cpp_vibecoding.Text.{Bytes, is_empty}

pub data SessionState : Type 0 where
  authenticating waiting_match in_lobby in_game : SessionState

pub data IoOperation : Type 0 where
  accept recv send : IoOperation

pub record UserInfo : Type 0 where
  pub id : Bytes
  pub nickname : Bytes
  pub wins : ℤ
  pub losses : ℤ
  pub report_count : ℤ
  pub is_suspended : Bool

abbrev pub no_user_info : UserInfo
no_user_info = record {
  id = [];
  nickname = [];
  wins = pos 0;
  losses = pos 0;
  report_count = pos 0;
  is_suspended = false;
}

-- `game_manager` is the pointer gameManager_ or null, `server` tells whether server_ is set.
pub record Session : Type 0 where
  pub socket : ℕ
  pub game_manager : Option ℕ
  pub server : Bool
  pub token : Bytes
  pub username : Bytes
  pub is_in_matching_queue : Bool
  pub current_state : SessionState
  pub is_closed : Bool
  pub user_info : UserInfo
  pub is_logged_in : Bool

-- INVALID_SOCKET, all ones in the 64-bit SOCKET.
abbrev pub invalid_socket : ℕ
invalid_socket = 2 ^ 64 - 1

abbrev pub session_buffer_size : ℕ
session_buffer_size = 4096

-- The constructor leaves isInMatchingQueue_ as the memory was: `stale`.
unfoldable pub new_session : ℕ → Bool → Session
new_session sock stale = record {
  socket = sock;
  game_manager = none;
  server = false;
  token = [];
  username = [];
  is_in_matching_queue = stale;
  current_state = authenticating;
  is_closed = false;
  user_info = no_user_info;
  is_logged_in = false;
}

-- IsAuthenticated.
pub is_authenticated : Session → Bool
is_authenticated s = not (is_empty s.token)

-- What the server does to the outside: bytes handed to WSASend, and game results handed to
-- DatabaseManager::SaveGameResult.
pub data Effect : Type 0 where
  sent : ℕ → Bytes → Effect
  saved : Bytes → Bytes → Effect

-- The sessions, and the effects in the order in which they happened.
pub record World : Type 0 where
  pub sessions : ℕ → Session
  pub log : List Effect

unfoldable pub update : (ℕ → Session) → ℕ → Session → ℕ → Session
update h p s q = if q == p then s else h q

-- A setter called through the pointer `p`.
unfoldable pub modify : ℕ → (Session → Session) → World → World
unfolding update
modify p f w = record w { sessions = update w.sessions p (f (w.sessions p)) }

-- PostSend: nothing is sent if the data is empty or larger than the buffer. No caller reads its
-- result.
unfoldable pub post_send : ℕ → Bytes → World → World
post_send p message w =
    if is_empty message
    then w
    else if ltb session_buffer_size (length message)
    then w
    else record w { log = w.log ++ sent p message ∷ [] }

-- SetState.
abbrev pub set_state : SessionState → Session → Session
set_state state s = record s { current_state = state }

-- SetGameManager.
abbrev pub set_game_manager : Option ℕ → Session → Session
set_game_manager g s = record s { game_manager = g }

-- SetInMatchingQueue.
abbrev pub set_in_matching_queue : Bool → Session → Session
set_in_matching_queue b s = record s { is_in_matching_queue = b }

-- SetToken, SetNickname.
abbrev pub set_token : Bytes → Session → Session
set_token t s = record s { token = t }

abbrev pub set_nickname : Bytes → Session → Session
set_nickname n s = record s { username = n }

-- SetUserInfo, SetLoggedIn.
abbrev pub set_user_info : UserInfo → Session → Session
set_user_info u s = record s { user_info = u }

abbrev pub set_logged_in : Bool → Session → Session
set_logged_in b s = record s { is_logged_in = b }
