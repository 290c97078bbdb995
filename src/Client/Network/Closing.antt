-- ===== src/Client/Network/Closing.antt =====
-- IOCPClient::Close: the worker thread ends, so that the join returns.
use codenames_cpp_vibecoding.Prelude.{
  ◌≡◌, refl, sym, ap, ◌∙◌, true, false, List, [], ◌∷◌, ◌++◌, arith, Bool-cases, inl, inr,
}
use codenames_cpp_vibecoding.Client.Network.{
  Completion, aborted, failed, signal, received, send_done, Startup, Thread, Network, no_thread,
  testing, waiting, ended, joined, connect, disconnect, send_data, worker_at, worker_takes,
  post_signal, join_worker, worker_waits, worker_steps, stop_worker, close_client, is_joinable,
  join_thread, initialize, initialize_iocp, cleanup_iocp, new_network, on_network_connected,
  on_network_disconnected, process_received_data, on_network_data_received,
}
use codenames_cpp_vibecoding.Client.Network.Runs.{
  Act, connecting, sending, disconnecting, arriving, working, taking_packet, taking_task, carry_out,
  run, take_packet, take_task, begun,
}

-- Neither the port nor whether there is a thread to join changes.
record SameThread (n m : Network) : Type 0 where
  port : m.port ≡ n.port
  join : is_joinable m.thread ≡ is_joinable n.thread

worker_takes-SameThread :
    (k : Completion) (n : Network) → is_joinable n.thread ≡ true → SameThread n (worker_takes k n)
unfolding worker_takes disconnect on_network_disconnected process_received_data
    on_network_data_received is_joinable
worker_takes-SameThread aborted n h = record { port = refl; join = sym h }
worker_takes-SameThread failed n h = record { port = ground arith; join = sym h }
worker_takes-SameThread signal n h = record { port = refl; join = sym h }
worker_takes-SameThread (received d posted) n h = record {
  port = ground arith;
  join = ground arith;
}
worker_takes-SameThread send_done n h = record { port = refl; join = sym h }

worker_waits-SameThread :
    (ks : List Completion) (n : Network) → n.thread ≡ waiting → SameThread n (worker_waits ks n)
unfolding worker_waits is_joinable
worker_waits-SameThread [] n h = record { port = refl; join = refl }
worker_waits-SameThread (k ∷ ks) n h =
    let s : SameThread (record n { completions = ks })
        (worker_takes k (record n { completions = ks })) =
      worker_takes-SameThread k (record n { completions = ks }) (ap is_joinable h) in
    record { port = s.port; join = s.join }

worker_at-SameThread : (t : Thread) (n : Network) → n.thread ≡ t → SameThread n (worker_at t n)
unfolding worker_at is_joinable
worker_at-SameThread no_thread n h = record { port = refl; join = refl }
worker_at-SameThread testing n h = record { port = refl; join = ground arith }
worker_at-SameThread waiting n h = worker_waits-SameThread n.completions n h
worker_at-SameThread ended n h = record { port = refl; join = refl }
worker_at-SameThread joined n h = record { port = refl; join = refl }

carry_out-SameThread : (a : Act) (n : Network) → SameThread n (carry_out a n)
unfolding carry_out take_packet take_task connect disconnect send_data on_network_connected
    on_network_disconnected
carry_out-SameThread (connecting k) n = record { port = ground arith; join = ground arith }
carry_out-SameThread (sending accepted d) n = record { port = ground arith; join = ground arith }
carry_out-SameThread disconnecting n = record { port = ground arith; join = ground arith }
carry_out-SameThread (arriving k) n = record { port = refl; join = refl }
carry_out-SameThread working n = worker_at-SameThread n.thread n refl
carry_out-SameThread taking_packet n = record { port = refl; join = refl }
carry_out-SameThread taking_task n = record { port = refl; join = refl }

run-SameThread : (acts : List Act) (n : Network) → SameThread n (run acts n).1
unfolding run
run-SameThread [] n = record { port = refl; join = refl }
run-SameThread (a ∷ acts) n =
    let first : SameThread n (carry_out a n) = carry_out-SameThread a n in
    let rest : SameThread (carry_out a n) (run acts (carry_out a n)).1 =
      run-SameThread acts (carry_out a n) in
    record { port = rest.port ∙ first.port; join = rest.join ∙ first.join }

-- A thread to join has a port.
abbrev HasPort : Network → Type 0
HasPort n = is_joinable n.thread ≡ true → n.port ≡ true

begun-HasPort : (u : Startup) → HasPort (begun u)
unfolding begun initialize initialize_iocp cleanup_iocp new_network is_joinable
begun-HasPort u h = ground arith

run-HasPort : (u : Startup) (acts : List Act) → HasPort (run acts (begun u)).1
run-HasPort u acts h =
    let s : SameThread (begun u) (run acts (begun u)).1 = run-SameThread acts (begun u) in
    s.port ∙ begun-HasPort u (sym s.join ∙ h)

-- Behind a completion a worker that is not connected has left, or leaves at its next test.
record Leaves (n : Network) : Type 0 where
  down : n.connected ≡ false
  next : (worker_at n.thread n).thread ≡ ended

worker_takes-Leaves :
    (k : Completion) (n : Network) → n.connected ≡ false → Leaves (worker_takes k n)
unfolding worker_takes worker_at disconnect on_network_disconnected process_received_data
    on_network_data_received
worker_takes-Leaves aborted n h = record { down = h; next = refl }
worker_takes-Leaves failed n h = record { down = ground arith; next = refl }
worker_takes-Leaves signal n h = record { down = h; next = refl }
worker_takes-Leaves (received d posted) n h = record { down = ground arith; next = ground arith }
worker_takes-Leaves send_done n h = record { down = h; next = rw h refl }

worker_waits-Leaves :
    (ks : List Completion) (k : Completion) (n : Network)
    → n.connected ≡ false
    → Leaves (worker_waits (ks ++ k ∷ []) n)
unfolding worker_waits
worker_waits-Leaves [] k n h = worker_takes-Leaves k (record n { completions = [] }) h
worker_waits-Leaves (j ∷ ks) k n h =
    worker_takes-Leaves j (record n { completions = ks ++ k ∷ [] }) h

worker_waits_down :
    (ks : List Completion) (n : Network)
    → n.connected ≡ false
    → (worker_waits ks n).connected ≡ false
unfolding worker_waits
worker_waits_down [] n h = h
worker_waits_down (k ∷ ks) n h =
    let l : Leaves (worker_takes k (record n { completions = ks })) =
      worker_takes-Leaves k (record n { completions = ks }) h in
    l.down

worker_at_down :
    (t : Thread) (n : Network) → n.connected ≡ false → (worker_at t n).connected ≡ false
unfolding worker_at
worker_at_down no_thread n h = h
worker_at_down testing n h = h
worker_at_down waiting n h = worker_waits_down n.completions n h
worker_at_down ended n h = h
worker_at_down joined n h = h

-- The second step of a worker that is not connected, with a completion at the port.
worker_at_twice :
    (t : Thread) (ks : List Completion) (k : Completion) (n : Network)
    → n.thread ≡ t
    → n.completions ≡ ks ++ k ∷ []
    → n.connected ≡ false
    → is_joinable t ≡ true
    → (worker_at (worker_at t n).thread (worker_at t n)).thread ≡ ended
unfolding worker_at is_joinable
worker_at_twice no_thread ks k n e c h j = cc
worker_at_twice testing ks k n e c h j = rw (h, worker_at) refl
worker_at_twice waiting ks k n e c h j =
    let l : Leaves (worker_waits (ks ++ k ∷ []) n) = worker_waits-Leaves ks k n h in simp c l.next
worker_at_twice ended ks k n e c h j = ap (λ t. (worker_at t n).thread) e ∙ e
worker_at_twice joined ks k n e c h j = cc

-- The join returns.
join_worker_joins :
    (ks : List Completion) (k : Completion) (n : Network)
    → n.completions ≡ ks ++ k ∷ []
    → n.connected ≡ false
    → is_joinable n.thread ≡ true
    → ((join_worker n).connected ≡ false) × (is_joinable (join_worker n).thread ≡ false)
unfolding join_worker worker_steps is_joinable
join_worker_joins ks k n c h j = (
  worker_at_down (worker_at n.thread n).thread (worker_at n.thread n) (worker_at_down n.thread n h),
  ap (λ t. is_joinable (join_thread t)) (worker_at_twice n.thread ks k n refl c h j),
)

record Signalled (n : Network) : Type 0 where
  posted : (post_signal n).completions ≡ n.completions ++ signal ∷ []
  down : (post_signal n).connected ≡ n.connected
  thread : (post_signal n).thread ≡ n.thread

post_signal-Signalled : (n : Network) → n.port ≡ true → Signalled n
unfolding post_signal
post_signal-Signalled n p = record {
  posted = ground arith;
  down = ground arith;
  thread = ground arith;
}

stop_worker_joins :
    (n : Network)
    → n.connected ≡ false
    → HasPort n
    → ((stop_worker n).connected ≡ false) × (is_joinable (stop_worker n).thread ≡ false)
unfolding stop_worker is_joinable
stop_worker_joins n h p = elim (Bool-cases (is_joinable n.thread)) [
  | inl j ↦
      let s : Signalled n = post_signal-Signalled n (p j) in
      rw j (
        join_worker_joins n.completions signal (post_signal n) s.posted (s.down ∙ h)
          (ap is_joinable s.thread ∙ j))
  | inr j ↦ rw j (h, j)
]

record Lowered (n : Network) : Type 0 where
  down : (disconnect n).connected ≡ false
  closed : (disconnect n).socket ≡ false
  port : (disconnect n).port ≡ n.port
  thread : (disconnect n).thread ≡ n.thread

disconnect-Lowered : (n : Network) → Lowered n
unfolding disconnect on_network_disconnected
disconnect-Lowered n = record {
  down = ground arith;
  closed = ground arith;
  port = ground arith;
  thread = ground arith;
}

-- Close ends every client that Initialize has begun, whatever happened in between: the client is not
-- connected, the port is closed, and no thread is left to join, so the join has returned.
pub close_client_ends :
    (u : Startup) (acts : List Act)
    → let n = close_client (run acts (begun u)).1 in
      (n.connected ≡ false) × (n.port ≡ false) × (is_joinable n.thread ≡ false)
unfolding close_client
close_client_ends u acts =
    let n = (run acts (begun u)).1 in
    let l : Lowered n = disconnect-Lowered n in
    let (down, left) =
      stop_worker_joins (disconnect n) l.down
        (λ h. l.port ∙ run-HasPort u acts (sym (ap is_joinable l.thread) ∙ h)) in
    (down, refl, left)
