-- ===== src/Client/Network/Ordering.antt =====
-- What becomes of the received bytes between the completion port and the GUI thread.
use codenames_cpp_vibecoding.Prelude.{
  ◌≡◌, refl, sym, ap, ◌∙◌, Bool, true, List, [], ◌∷◌, ◌++◌, if◌then◌else◌, arith, Bool-cases, inl,
  inr,
}
use mathlib.Core.List.{append-nil, append_assoc}
use codenames_cpp_vibecoding.Text.{Bytes, is_empty}
use codenames_cpp_vibecoding.Client.Network.{
  Completion, aborted, failed, signal, received, send_done, Dial, Thread, Network, no_thread,
  testing, waiting, ended, joined, connect, disconnect, send_data, worker_takes, worker_waits,
  worker_at, on_network_connected, on_network_disconnected, on_network_data_received,
  process_received_data,
}
use codenames_cpp_vibecoding.Client.Network.Runs.{
  Act, connecting, sending, disconnecting, arriving, working, taking_packet, taking_task, carry_out,
  taken, run, take_packet, take_task, front, behind,
}

-- The bytes that a completion brings, and those of several in their order.
unfoldable pub brought : Completion → List Bytes
brought aborted = []
brought failed = []
brought signal = []
brought (received d posted) = if is_empty d then [] else d ∷ []
brought send_done = []

unfoldable pub all_brought : List Completion → List Bytes
unfolding brought
all_brought [] = []
all_brought (k ∷ ks) = brought k ++ all_brought ks

unfoldable pub arrivals : List Act → List Bytes
unfolding brought
arrivals [] = []
arrivals (arriving k ∷ acts) = brought k ++ arrivals acts
arrivals (connecting k ∷ acts) = arrivals acts
arrivals (sending accepted d ∷ acts) = arrivals acts
arrivals (disconnecting ∷ acts) = arrivals acts
arrivals (working ∷ acts) = arrivals acts
arrivals (taking_packet ∷ acts) = arrivals acts
arrivals (taking_task ∷ acts) = arrivals acts

all_brought-append :
    (ks : List Completion) (k : Completion)
    → all_brought (ks ++ k ∷ []) ≡ all_brought ks ++ brought k
unfolding all_brought
all_brought-append [] k = append-nil (brought k)
all_brought-append (j ∷ ks) k =
    rw (all_brought-append ks k) (sym (append_assoc (brought j) (all_brought ks) (brought k)))

-- What the client has received and the GUI has not: in the queue and at the port.
abbrev backlog : Network → List Bytes
backlog n = n.packet_queue ++ all_brought n.completions

-- The packets of one act.
abbrev arrival : Act → List Bytes
arrival a = arrivals (a ∷ [])

arrivals_cons : (a : Act) (acts : List Act) → arrivals (a ∷ acts) ≡ arrival a ++ arrivals acts
unfolding arrivals
arrivals_cons (arriving k) acts = rw append-nil refl
arrivals_cons (connecting k) acts = refl
arrivals_cons (sending accepted d) acts = refl
arrivals_cons disconnecting acts = refl
arrivals_cons working acts = refl
arrivals_cons taking_packet acts = refl
arrivals_cons taking_task acts = refl

record Kept (n m : Network) : Type 0 where
  same : backlog m ≡ backlog n
  still : m.registered ≡ n.registered

connect-Kept : (k : Dial) (n : Network) → Kept n (connect k n).0
unfolding connect on_network_connected
connect-Kept k n = record { same = ground arith; still = ground arith }

send_data-Kept : (accepted : Bool) (d : Bytes) (n : Network) → Kept n (send_data accepted d n).0
unfolding send_data
send_data-Kept accepted d n = record { same = ground arith; still = ground arith }

disconnect-Kept : (n : Network) → Kept n (disconnect n)
unfolding disconnect on_network_disconnected
disconnect-Kept n = record { same = ground arith; still = ground arith }

worker_takes-Kept :
    (k : Completion) (ks : List Completion) (n : Network)
    → n.registered ≡ true
    → n.completions ≡ k ∷ ks
    → Kept n (worker_takes k (record n { completions = ks }))
unfolding worker_takes disconnect on_network_disconnected process_received_data
    on_network_data_received all_brought brought
worker_takes-Kept aborted ks n r e = record { same = rw e refl; still = refl }
worker_takes-Kept failed ks n r e = record { same = rw (e, r) refl; still = rw r refl }
worker_takes-Kept signal ks n r e = record { same = rw e refl; still = refl }
worker_takes-Kept send_done ks n r e = record { same = rw e refl; still = refl }
worker_takes-Kept (received d posted) ks n r e = elim (Bool-cases (is_empty d)) [
  | inl f ↦ record { same = rw (e, r, f) refl; still = rw (r, f) refl }
  | inr f ↦ elim (Bool-cases posted) [
    | inl p ↦ record {
      same = rw (e, r, f, p) (append_assoc n.packet_queue (d ∷ []) (all_brought ks));
      still = rw (r, f, p) refl;
    }
    | inr p ↦ record {
      same = rw (e, r, f, p) (append_assoc n.packet_queue (d ∷ []) (all_brought ks));
      still = rw (r, f, p) refl;
    }
  ]
]

-- The packet that the GUI takes leaves the backlog, and what arrives joins it.
record Passes (a : Act) (n : Network) : Type 0 where
  moved : taken a n ++ backlog (carry_out a n) ≡ backlog n ++ arrival a
  keeps : (carry_out a n).registered ≡ n.registered

quiet :
    (a : Act) (n : Network) → taken a n ≡ [] → arrival a ≡ [] → Kept n (carry_out a n) → Passes a n
quiet a n t e k = record {
  moved = rw (t, e) (k.same ∙ sym (append-nil (backlog n)));
  keeps = k.still;
}

worker_waits-Kept :
    (ks : List Completion) (n : Network)
    → n.registered ≡ true
    → n.completions ≡ ks
    → Kept n (worker_waits ks n)
unfolding worker_waits
worker_waits-Kept [] n r e = record { same = refl; still = refl }
worker_waits-Kept (k ∷ ks) n r e = worker_takes-Kept k ks n r e

worker_at-Kept : (t : Thread) (n : Network) → n.registered ≡ true → Kept n (worker_at t n)
unfolding worker_at
worker_at-Kept no_thread n r = record { same = refl; still = refl }
worker_at-Kept testing n r = record { same = refl; still = refl }
worker_at-Kept waiting n r = worker_waits-Kept n.completions n r refl
worker_at-Kept ended n r = record { same = refl; still = refl }
worker_at-Kept joined n r = record { same = refl; still = refl }

front-behind : (q rest : List Bytes) → front q ++ (behind q ++ rest) ≡ (q ++ rest) ++ []
unfolding front behind
front-behind [] rest = sym (append-nil rest)
front-behind (d ∷ q) rest = ap (◌∷◌ d) (sym (append-nil (q ++ rest)))

carry_out-Passes : (a : Act) (n : Network) → n.registered ≡ true → Passes a n
unfolding carry_out taken arrivals take_packet take_task front behind
carry_out-Passes (connecting k) n r = quiet (connecting k) n refl refl (connect-Kept k n)
carry_out-Passes (sending accepted d) n r =
    quiet (sending accepted d) n refl refl (send_data-Kept accepted d n)
carry_out-Passes disconnecting n r = quiet disconnecting n refl refl (disconnect-Kept n)
carry_out-Passes (arriving k) n r = record {
  moved =
      rw (all_brought-append n.completions k, append-nil)
        (sym (append_assoc n.packet_queue (all_brought n.completions) (brought k)));
  keeps = refl;
}
carry_out-Passes working n r = quiet working n refl refl (worker_at-Kept n.thread n r)
carry_out-Passes taking_packet n r = record {
  moved = front-behind n.packet_queue (all_brought n.completions);
  keeps = refl;
}
carry_out-Passes taking_task n r =
    quiet taking_task n refl refl (record { same = refl; still = refl })

-- Whatever happens to a client with main's callbacks, in whatever order: the packets that the GUI
-- thread takes, then those in g_packetQueue, then those that wait at the completion port, are the
-- non-empty receives that were there at the start and arrived since, in the order of their arrival.
-- None is lost, doubled or overtaken.
pub run_in_order :
    (acts : List Act) (n : Network)
    → n.registered ≡ true
    → (run acts n).0 ++ ((run acts n).1.packet_queue ++ all_brought (run acts n).1.completions)
      ≡ (n.packet_queue ++ all_brought n.completions) ++ arrivals acts
unfolding run arrivals
run_in_order [] n r = sym (append-nil (backlog n))
run_in_order (a ∷ acts) n r =
    let p : Passes a n = carry_out-Passes a n r in
    let later = run_in_order acts (carry_out a n) (p.keeps ∙ r) in
    rw (append_assoc, later, ← append_assoc, p.moved, arrivals_cons a acts)
      (append_assoc (backlog n) (arrival a) (arrivals acts))
