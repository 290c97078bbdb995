-- ===== src/Server/Network/Stopping.antt =====
-- The destructor of NetworkManager: when the joins return.
use codenames_cpp_vibecoding.Prelude.{
  ℕ, zero, suc, ◌≤◌, ◌≡◌, ◌≢◌, refl, ◌∙◌, ◌↔◌, arith, Bool, true, false, not, ◌&&◌, List, [], ◌∷◌,
  Option, none, some, length, All, Bool-cases, inl, inr,
}
use codenames_cpp_vibecoding.Server.Network.{
  Worker, at_test, blocking, left, NetworkManager, worker_goes, each_worker, workers_go,
  accept_goes, post_signals, all_left, has_left, accept_step, join_workers, destroy_manager,
  shutdown,
}

-- The worker does not wait at the port.
data IsFree : Worker → Type 0 where
  free_at_test : IsFree at_test
  free_left : IsFree left

busy : {A : Type 0} → IsFree blocking → A
busy h = elim h [ ]

-- As many signals as workers let every worker leave the port.
each_worker-IsFree :
    (k : ℕ) (ts : List Worker) → length ts ≤ k → All IsFree (each_worker false k ts).0
unfolding each_worker worker_goes
each_worker-IsFree k [] h = tt
each_worker-IsFree zero (t ∷ ts) h = absurd (omega arith)
each_worker-IsFree (suc k) (at_test ∷ ts) h =
    (free_left, each_worker-IsFree (suc k) ts (omega arith))
each_worker-IsFree (suc k) (left ∷ ts) h = (free_left, each_worker-IsFree (suc k) ts (omega arith))
each_worker-IsFree (suc k) (blocking ∷ ts) h = (free_at_test, each_worker-IsFree k ts (omega arith))

-- And then its loop.
each_worker_left :
    (k : ℕ) (ts : List Worker) → All IsFree ts → all_left (each_worker false k ts).0 ≡ true
unfolding each_worker worker_goes all_left
each_worker_left k [] a = refl
each_worker_left k (at_test ∷ ts) a = each_worker_left k ts a.1
each_worker_left k (left ∷ ts) a = each_worker_left k ts a.1
each_worker_left zero (blocking ∷ ts) a = busy a.0
each_worker_left (suc k) (blocking ∷ ts) a = busy a.0

-- The workers end.
workers_go_left :
    (n : NetworkManager)
    → n.is_running ≡ false
    → length n.workers ≤ n.signals
    → all_left (workers_go (workers_go n)).workers ≡ true
unfolding workers_go
workers_go_left n r h = simp r (each_worker_left _ _ (each_worker-IsFree n.signals n.workers h))

record Signalled (n : NetworkManager) : Type 0 where
  enough : length (post_signals n).workers ≤ (post_signals n).signals
  stopped : (post_signals n).is_running ≡ n.is_running

post_signals-Signalled : (n : NetworkManager) → n.iocp ≡ true → Signalled n
unfolding post_signals
post_signals-Signalled n p = record { enough = ground arith; stopped = ground arith }

-- Every worker has left its loop, and the handles are closed.
pub record Ended (m : NetworkManager) : Type 0 where
  pub workers : all_left m.workers ≡ true
  pub socket : m.listen_socket ≡ false
  pub port : m.iocp ≡ false

-- The joins of the workers return.
join_workers_returns :
    (n : NetworkManager)
    → n.is_running ≡ false
    → n.iocp ≡ true
    → (m : NetworkManager) × (join_workers n ≡ some m) × Ended m
unfolding join_workers
join_workers_returns n r p =
    let s : Signalled n = post_signals-Signalled n p in
    let e = workers_go_left (post_signals n) (s.stopped ∙ r) s.enough in
    let ended = workers_go (workers_go (post_signals n)) in
    (
      record ended { listen_socket = false; iocp = false },
      rw e refl,
      record { workers = e; socket = refl; port = refl },
    )

-- The accept thread that accept blocks, on a socket that nobody has closed and no client comes to.
abbrev pub is_stuck : Bool → Bool → Option Worker → Bool
is_stuck listening comes none = false
is_stuck listening comes (some at_test) = false
is_stuck listening comes (some blocking) = listening && not comes
is_stuck listening comes (some left) = false

has_left-accept_step :
    (listening comes : Bool) (t : Option Worker)
    → has_left (accept_step false listening comes (accept_step false listening comes t))
      ≡ not (is_stuck listening comes t)
unfolding has_left accept_step
has_left-accept_step listening comes none = refl
has_left-accept_step listening comes (some at_test) = refl
has_left-accept_step true true (some blocking) = refl
has_left-accept_step true false (some blocking) = refl
has_left-accept_step false comes (some blocking) = refl
has_left-accept_step listening comes (some left) = refl

-- What the destructor does with the accept thread.
after_accept : Bool → NetworkManager → NetworkManager
after_accept comes n = accept_goes comes (accept_goes comes (record n { is_running = false }))

pub destroy_manager_free :
    (comes : Bool) (n : NetworkManager)
    → n.iocp ≡ true
    → is_stuck n.listen_socket comes n.accept_thread ≡ false
    → (m : NetworkManager) × (destroy_manager comes n ≡ some m) × Ended m
unfolding destroy_manager accept_goes after_accept
destroy_manager_free comes n p e =
    let (m, joins, ended) = join_workers_returns (after_accept comes n) refl p in
    (m, rw (has_left-accept_step n.listen_socket comes n.accept_thread, e) joins, ended)

destroy_manager_stuck :
    (comes : Bool) (n : NetworkManager)
    → is_stuck n.listen_socket comes n.accept_thread ≡ true
    → destroy_manager comes n ≡ none
unfolding destroy_manager accept_goes
destroy_manager_stuck comes n e =
    rw (has_left-accept_step n.listen_socket comes n.accept_thread, e) refl

pub closed_not_stuck : (comes : Bool) (t : Option Worker) → is_stuck false comes t ≡ false
closed_not_stuck comes none = refl
closed_not_stuck comes (some at_test) = refl
closed_not_stuck comes (some blocking) = refl
closed_not_stuck comes (some left) = refl

-- If there is a completion port, then, wherever the workers are, the join of the accept thread in
-- the destructor of NetworkManager blocks exactly if that thread is in accept, the listening socket
-- is open, and no client connects meanwhile. Where it does not block, the destructor returns, and
-- every worker has left its loop then, and the handles are closed; so it is behind Shutdown in any
-- case. The workers are brought nothing but the signals of the destructor.
pub destroy_manager_returns :
    (comes : Bool) (n : NetworkManager)
    → n.iocp ≡ true
    → ((destroy_manager comes n ≡ none)
        ↔ ((n.accept_thread ≡ some blocking) × (n.listen_socket ≡ true) × (comes ≡ false)))
      × ((destroy_manager comes n ≢ none)
          → (m : NetworkManager) × (destroy_manager comes n ≡ some m) × Ended m)
      × ((m : NetworkManager) × (destroy_manager comes (shutdown n) ≡ some m) × Ended m)
unfolding shutdown
destroy_manager_returns comes n p = (
  (
    λ h. elim (Bool-cases (is_stuck n.listen_socket comes n.accept_thread)) [
      | inl e ↦ stuck_where n.listen_socket comes n.accept_thread e
      | inr e ↦ let (m, returns, ended) = destroy_manager_free comes n p e in cc
    ],
    λ (t, l, c). destroy_manager_stuck comes n (rw (t, l, c) refl),
  ),
  λ h. elim (Bool-cases (is_stuck n.listen_socket comes n.accept_thread)) [
    | inl e ↦ absurd (h (destroy_manager_stuck comes n e))
    | inr e ↦ destroy_manager_free comes n p e
  ],
  destroy_manager_free comes (shutdown n) p (closed_not_stuck comes n.accept_thread),
)
  where
    stuck_where :
        (listening coming : Bool) (t : Option Worker)
        → is_stuck listening coming t ≡ true
        → (t ≡ some blocking) × (listening ≡ true) × (coming ≡ false)
    stuck_where listening coming none e = cc
    stuck_where listening coming (some at_test) e = cc
    stuck_where true true (some blocking) e = cc
    stuck_where true false (some blocking) e = (refl, refl, refl)
    stuck_where false coming (some blocking) e = cc
    stuck_where listening coming (some left) e = cc
