-- ===== src/Client/Network/Early.antt =====
-- A worker thread that starts before Connect has set connected_: InitializeIOCP creates the thread,
-- and the loop of WorkerThread tests connected_ first.
use codenames_cpp_vibecoding.Prelude.{
  ◌≡◌, refl, ap, ◌∙◌, Bool, true, false, List, [], ◌∷◌, ◌++◌, arith,
}
use mathlib.Core.List.{append_assoc}
use codenames_cpp_vibecoding.Text.{Bytes}
use codenames_cpp_vibecoding.Client.Network.{
  Startup, Thread, Network, no_thread, testing, waiting, ended, joined, connect, disconnect,
  send_data, worker_at, initialize, initialize_iocp, cleanup_iocp, new_network,
  on_network_connected, on_network_disconnected,
}
use codenames_cpp_vibecoding.Client.Network.Runs.{
  Act, connecting, sending, disconnecting, arriving, working, taking_packet, taking_task, carry_out,
  taken, run, take_packet, take_task, front, behind, begun,
}

-- The thread is in its loop.
unfoldable pub is_live : Thread → Bool
is_live no_thread = false
is_live testing = true
is_live waiting = true
is_live ended = false
is_live joined = false

-- Nothing is put into the queue, and the thread stays out of its loop.
record Deaf (a : Act) (n : Network) : Type 0 where
  same : taken a n ++ (carry_out a n).packet_queue ≡ n.packet_queue
  out : is_live (carry_out a n).thread ≡ false

worker_at_out : (t : Thread) (n : Network) → is_live t ≡ false → worker_at t n ≡ n
unfolding worker_at is_live
worker_at_out no_thread n h = refl
worker_at_out testing n h = cc
worker_at_out waiting n h = cc
worker_at_out ended n h = refl
worker_at_out joined n h = refl

front-behind : (q : List Bytes) → front q ++ behind q ≡ q
unfolding front behind
front-behind [] = refl
front-behind (d ∷ q) = refl

carry_out-Deaf : (a : Act) (n : Network) → is_live n.thread ≡ false → Deaf a n
unfolding carry_out taken take_packet take_task connect disconnect send_data on_network_connected
    on_network_disconnected
carry_out-Deaf (connecting k) n h = record { same = ground arith; out = ground arith }
carry_out-Deaf (sending accepted d) n h = record { same = ground arith; out = ground arith }
carry_out-Deaf disconnecting n h = record { same = ground arith; out = ground arith }
carry_out-Deaf (arriving k) n h = record { same = refl; out = h }
carry_out-Deaf working n h = record {
  same = ap (λ (m : Network). m.packet_queue) (worker_at_out n.thread n h);
  out = ap (λ (m : Network). is_live m.thread) (worker_at_out n.thread n h) ∙ h;
}
carry_out-Deaf taking_packet n h = record { same = front-behind n.packet_queue; out = h }
carry_out-Deaf taking_task n h = record { same = refl; out = h }

-- Without a thread in the loop the GUI thread gets no more than the queue holds.
run_out :
    (acts : List Act) (n : Network)
    → is_live n.thread ≡ false
    → ((run acts n).0 ++ (run acts n).1.packet_queue ≡ n.packet_queue)
      × (is_live (run acts n).1.thread ≡ false)
unfolding run
run_out [] n h = (refl, h)
run_out (a ∷ acts) n h =
    let d : Deaf a n = carry_out-Deaf a n h in
    let (same, out) = run_out acts (carry_out a n) d.out in
    (rw append_assoc (ap (◌++◌ (taken a n)) same ∙ d.same), out)

worker_at-begun :
    (u : Startup)
    → ((worker_at (begun u).thread (begun u)).packet_queue ≡ [])
      × (is_live (worker_at (begun u).thread (begun u)).thread ≡ false)
unfolding begun initialize initialize_iocp cleanup_iocp new_network worker_at is_live
worker_at-begun u = ground arith

nil_append : (p q : List Bytes) → p ++ q ≡ [] → (p ≡ []) × (q ≡ [])
nil_append [] q h = (refl, h)
nil_append (d ∷ p) q h = cc

-- If the first thing that happens behind Initialize is the worker's test of its loop, then the GUI
-- thread never gets a packet, the queue stays empty and no thread is in the loop, whatever follows:
-- also if Connect succeeds, data arrive and data are sent.
pub early_worker_receives_nothing :
    (u : Startup) (acts : List Act)
    → let (got, n) = run (working ∷ acts) (begun u) in
      (got ≡ []) × (n.packet_queue ≡ []) × (is_live n.thread ≡ false)
unfolding run carry_out taken
early_worker_receives_nothing u acts =
    let (none_queued, out) = worker_at-begun u in
    let (same, left) = run_out acts (worker_at (begun u).thread (begun u)) out in
    let (got, queued) = nil_append _ _ (same ∙ none_queued) in (got, queued, left)
