-- ===== src/Server/Turns.antt =====
-- The threads of the server between Start and Ctrl-C, one at a time: the loops of WorkerThreads and
-- StartAccept in CodeNamesServer/src/NetworkManager.cpp.
use codenames_cpp_vibecoding.Prelude.{
  ℕ, ◌≡◌, refl, ◌∙◌, Bool, true, false, List, [], ◌∷◌, Option, none, some, if◌then◌else◌,
  Option-cases, inl, inr, get_elem?, set,
}
use codenames_cpp_vibecoding.Server.{Server}
use codenames_cpp_vibecoding.Server.Network.{
  NetworkManager, Worker, at_test, blocking, left, accept_goes,
}

-- What a handler makes of the server: anything, but that it does not write isRunning, which is
-- private to IOCPServer and written by Start and Stop only.
pub data Handled : Type 0 where
  by : (Server → Server) → Handled

unfoldable pub handled : Handled → Server → Server
handled (by f) v = record (f v) { is_running = v.is_running }

-- What goes on between Start and Ctrl-C, one thread at a time: the worker with a number goes on, and
-- if it waits at the port, there is nothing or a completion for it; the accept thread goes on, and if
-- it waits in accept, no client or one. A handler is taken to return.
pub data Turn : Type 0 where
  worker_turn : ℕ → Option Handled → Turn
  accept_turn : Option Handled → Turn

handled_by : Option Handled → Server → Server
handled_by none v = v
handled_by (some h) v = handled h v

-- Where a worker is behind its turn, and the server. The port is open, so a wait ends by a completion.
unfoldable pub worker_turns : Bool → Option Handled → Worker → Server → Worker × Server
unfolding handled_by
worker_turns running o at_test v = (if running then blocking else left, v)
worker_turns running none blocking v = (blocking, v)
worker_turns running (some h) blocking v = (at_test, handled h v)
worker_turns running o left v = (left, v)

is_some : Option Handled → Bool
is_some none = false
is_some (some h) = true

-- The new client is handled if accept was waiting for it on an open socket.
accepted : Bool → Option Worker → Option Handled → Server → Server
unfolding handled_by
accepted true (some blocking) o v = handled_by o v
accepted listening t o v = v

unfoldable pub turn : Turn → NetworkManager × Server → NetworkManager × Server
unfolding worker_turns is_some accepted
turn (worker_turn i o) (n, v) = elim (get_elem? n.workers i) [
  | none ↦ (n, v)
  | some t ↦
      let (t', v') = worker_turns n.is_running o t v in
      (record n { workers = set n.workers i t' }, v')
]
turn (accept_turn o) (n, v) =
    (accept_goes (is_some o) n, accepted n.listen_socket n.accept_thread o v)

unfoldable pub take_turns : List Turn → NetworkManager × Server → NetworkManager × Server
unfolding turn
take_turns [] s = s
take_turns (t ∷ ts) s = take_turns ts (turn t s)

-- The completion port and the server's flag, which no turn changes.
pub record IsUp (s : NetworkManager × Server) : Type 0 where
  pub port : s.0.iocp ≡ true
  pub runs : s.1.is_running ≡ true

handled_by-runs : (o : Option Handled) (v : Server) → (handled_by o v).is_running ≡ v.is_running
unfolding handled_by handled
handled_by-runs none v = refl
handled_by-runs (some (by f)) v = refl

accepted-runs :
    (listening : Bool) (t : Option Worker) (o : Option Handled) (v : Server)
    → (accepted listening t o v).is_running ≡ v.is_running
unfolding accepted
accepted-runs true (some blocking) o v = handled_by-runs o v
accepted-runs true (some at_test) o v = refl
accepted-runs true (some left) o v = refl
accepted-runs true none o v = refl
accepted-runs false t o v = refl

worker_turns-runs :
    (running : Bool) (o : Option Handled) (t : Worker) (v : Server)
    → (worker_turns running o t v).1.is_running ≡ v.is_running
unfolding worker_turns handled
worker_turns-runs running none at_test v = refl
worker_turns-runs running none blocking v = refl
worker_turns-runs running none left v = refl
worker_turns-runs running (some (by f)) at_test v = refl
worker_turns-runs running (some (by f)) blocking v = refl
worker_turns-runs running (some (by f)) left v = refl

turn-IsUp : (t : Turn) (n : NetworkManager) (v : Server) → IsUp (n, v) → IsUp (turn t (n, v))
unfolding turn accept_goes
turn-IsUp (worker_turn i o) n v u = elim (Option-cases (get_elem? n.workers i)) [
  | inl e ↦ rw (e, turn) u
  | inr (t, e) ↦
      rw (e, turn) (record { port = u.port; runs = worker_turns-runs n.is_running o t v ∙ u.runs })
]
turn-IsUp (accept_turn o) n v u = record {
  port = u.port;
  runs = accepted-runs n.listen_socket n.accept_thread o v ∙ u.runs;
}

pub take_turns-IsUp :
    (ts : List Turn) (n : NetworkManager) (v : Server) → IsUp (n, v) → IsUp (take_turns ts (n, v))
unfolding take_turns
take_turns-IsUp [] n v u = u
take_turns-IsUp (t ∷ ts) n v u =
    take_turns-IsUp ts (turn t (n, v)).0 (turn t (n, v)).1 (turn-IsUp t n v u)
