-- ===== src/Client/Network/Runs.antt =====
-- What happens to an initialized client of CodeNamesClient/src/core/IOCPClient.cpp, in the order in
-- which it happens: the calls of main, the worker thread, the system and the GUI thread.
use codenames_cpp_vibecoding.Prelude.{Bool, true, List, [], ◌∷◌, ◌++◌}
use codenames_cpp_vibecoding.Text.{Bytes}
use codenames_cpp_vibecoding.Client.Network.{
  Completion, Dial, Startup, Network, new_network, initialize, connect, disconnect, send_data,
  worker_step,
}

-- A completion reaches the port; the GUI thread takes the first packet, or the first task.
pub data Act : Type 0 where
  connecting : Dial → Act
  sending : Bool → Bytes → Act
  disconnecting : Act
  arriving : Completion → Act
  working : Act
  taking_packet : Act
  taking_task : Act

unfoldable pub front : List Bytes → List Bytes
front [] = []
front (d ∷ ds) = d ∷ []

unfoldable pub behind {ℓ} : {A : Type ℓ} → List A → List A
behind [] = []
behind (x ∷ xs) = xs

-- g_packetQueue.pop_front and g_mainTasks.pop_front, where there is something.
unfoldable pub take_packet : Network → Network
unfolding behind
take_packet n = record n { packet_queue = behind n.packet_queue }

unfoldable pub take_task : Network → Network
unfolding behind
take_task n = record n { main_tasks = behind n.main_tasks }

unfoldable pub carry_out : Act → Network → Network
unfolding take_packet take_task
carry_out (connecting k) n = (connect k n).0
carry_out (sending accepted d) n = (send_data accepted d n).0
carry_out disconnecting n = disconnect n
carry_out (arriving k) n = record n { completions = n.completions ++ k ∷ [] }
carry_out working n = worker_step n
carry_out taking_packet n = take_packet n
carry_out taking_task n = take_task n

-- The packet that the GUI thread gets.
unfoldable pub taken : Act → Network → List Bytes
unfolding front
taken (connecting k) n = []
taken (sending accepted d) n = []
taken disconnecting n = []
taken (arriving k) n = []
taken working n = []
taken taking_packet n = front n.packet_queue
taken taking_task n = []

-- The packets that the GUI thread got, and the client at the end.
unfoldable pub run : List Act → Network → List Bytes × Network
unfolding carry_out taken
run [] n = ([], n)
run (a ∷ acts) n = let (got, last) = run acts (carry_out a n) in (taken a n ++ got, last)

-- A client with main's callbacks behind Initialize.
unfoldable pub begun : Startup → Network
begun u = (initialize u (record new_network { registered = true })).0
