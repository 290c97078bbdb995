-- ===== src/Tests/Networks.antt =====
-- Tests of the client's network and scenes, and of the server's threads.
use codenames_cpp_vibecoding.Prelude.{
  Bool, ◌≢◌, ℕ, ◌≡◌, ◌↔◌, refl, arith, true, false, List, [], ◌∷◌, ◌++◌, Option, none, some, pos,
}
use codenames_cpp_vibecoding.Text.{Bytes, text, is_empty}
use codenames_cpp_vibecoding.Protocol.{packet, pkt_login}
use codenames_cpp_vibecoding.SessionManager.Auth.{login, parse_auth}
use codenames_cpp_vibecoding.Client.Network.{
  Startup, Dial, Network, received, new_network, initialize, initialize_iocp, send_data,
  enter_lobby, close_client, is_joinable,
}
use codenames_cpp_vibecoding.Client.Network.Runs.{
  Act, connecting, arriving, working, taking_packet, run, begun,
}
use codenames_cpp_vibecoding.Client.Network.Ordering.{all_brought, arrivals, run_in_order}
use codenames_cpp_vibecoding.Client.Network.Early.{is_live, early_worker_receives_nothing}
use codenames_cpp_vibecoding.Client.Network.Closing.{close_client_ends}
use codenames_cpp_vibecoding.Client.Network.Limits.{FitsBuffer, send_data_iff}
use codenames_cpp_vibecoding.Client.Forms.{
  new_login_screen, show_login, login_loop, login_input, login_key, login_enter, login_edit,
  login_tab, login_forward, type_key,
}
use codenames_cpp_vibecoding.Client.Scenes.{Gui, login_scene, main_menu_scene, login_scene_loop}
use codenames_cpp_vibecoding.Client.Scenes.Login.{silent, refused_wrong_password}
use codenames_cpp_vibecoding.Client.Scenes.Signup.{new_signup_screen, show_signup}
use codenames_cpp_vibecoding.Client.Scenes.Requests.{empty-IsField, typed_login_arrives}
use codenames_cpp_vibecoding.Client.Scenes.Enrolment.{SendsSignups, show_signup-SendsSignups}
use codenames_cpp_vibecoding.Client.Scenes.Program.{Program, Input, new_program, run_gui}
use codenames_cpp_vibecoding.Client.Scenes.Entry.{refused_login_enters}
use codenames_cpp_vibecoding.Server.{Server}
use codenames_cpp_vibecoding.Server.Network.{
  NetworkManager, System, Listening, at_test, blocking, create_listen_socket, destroy_manager,
  shutdown,
}
use codenames_cpp_vibecoding.Server.Network.Stopping.{Ended, destroy_manager_returns}
use codenames_cpp_vibecoding.Server.Turns.{Turn, worker_turn, accept_turn, by}
use codenames_cpp_vibecoding.Server.Entry.{server_main, HasEnded, server_main_returns}
use codenames_cpp_vibecoding.Tests.Fixtures.{demo_server}
use codenames_cpp_vibecoding.Tests.Clients.{counting, lobby_client, cat_client, login_keys, refused}

-- All calls succeed.
abbrev started : Startup
started = record { started = true; port_made = true; socket_made = true; tied = true }

abbrev dialled : Dial
dialled = record { is_address = true; reached = true; posted = true }

-- The client connects, two packets arrive, the worker handles the first, and the GUI takes it.
abbrev two_packets : List Act
two_packets =
    connecting dialled
    ∷ arriving (received (text "A") true)
    ∷ arriving (received (text "B") true)
    ∷ working
    ∷ working
    ∷ taking_packet
    ∷ []

run_in_order_example :
    (run two_packets (begun started)).0
      ++ ((run two_packets (begun started)).1.packet_queue
          ++ all_brought (run two_packets (begun started)).1.completions)
    ≡ ((begun started).packet_queue ++ all_brought (begun started).completions)
      ++ arrivals two_packets
unfolding begun initialize initialize_iocp new_network
run_in_order_example = run_in_order two_packets (begun started) refl

early_worker_receives_nothing_example :
    let (got, n) = run (working ∷ two_packets) (begun started) in
    (got ≡ []) × (n.packet_queue ≡ []) × (is_live n.thread ≡ false)
early_worker_receives_nothing_example = early_worker_receives_nothing started two_packets

close_client_ends_example :
    let n = close_client (run two_packets (begun started)).1 in
    (n.connected ≡ false) × (n.port ≡ false) × (is_joinable n.thread ≡ false)
close_client_ends_example = close_client_ends started two_packets

abbrev connected_network : Network
unfolding new_network
connected_network = record new_network { connected = true; socket = true; port = true }

send_data_iff_example :
    ((send_data true (text "CMD") connected_network).1 ≡ true)
    ↔ ((connected_network.connected ≡ true) × FitsBuffer (text "CMD") × (true ≡ true))
send_data_iff_example = send_data_iff true (text "CMD") connected_network

abbrev demo_gui : Gui ℕ
demo_gui = record {
  client = lobby_client;
  connected = true;
  current_scene = login_scene;
  sent = [];
}

typed_login_arrives_example :
    let s = show_login login_keys new_login_screen in
    let p = packet pkt_login (s.username ∷ s.password ∷ []) in
    ((login_scene_loop counting s refused demo_gui).sent ≡ [] ++ p ∷ [])
    × (send_data true p connected_network
        ≡ (record connected_network { wire = connected_network.wire ++ p ∷ [] }, true))
    × (parse_auth p ≡ login s.username s.password)
unfolding new_login_screen show_login login_loop login_input login_key login_enter login_edit
    login_tab login_forward type_key is_empty new_network connected_network
typed_login_arrives_example =
    typed_login_arrives counting login_keys refused demo_gui connected_network refl
      ((λ e. absurd (omega arith)), tt) refl refl

-- "a", TAB, "b", TAB, "c", TAB and ENTER, with an answer that never comes.
abbrev signup_keys : List (ℕ × ℕ × List (Option Bytes))
signup_keys =
    (97, 0, [])
    ∷ (9, 0, [])
    ∷ (98, 0, [])
    ∷ (9, 0, [])
    ∷ (99, 0, [])
    ∷ (9, 0, [])
    ∷ (13, 0, none ∷ [])
    ∷ []

show_signup-SendsSignups_example :
    SendsSignups demo_gui.sent (show_signup counting signup_keys new_signup_screen demo_gui).1.sent
unfolding new_signup_screen
show_signup-SendsSignups_example =
    show_signup-SendsSignups counting signup_keys new_signup_screen demo_gui
      (record { user = empty-IsField; password = empty-IsField; nick = empty-IsField })

-- The login of a user whom the server refuses.
abbrev refused_input : Input ℕ
refused_input = record {
  keys = login_keys;
  answers = refused;
  signup_keys = [];
  rounds = [];
  show_game = λ c. c;
}

abbrev demo_program : Program ℕ
unfolding new_program
demo_program = record (new_program 0 cat_client) { gui = demo_gui }

refused_login_enters_example :
    let q = run_gui counting ((enter_lobby ∷ [], [], refused_input) ∷ []) demo_program in
    let s = show_login login_keys demo_program.login_screen in
    (q.gui.current_scene ≡ main_menu_scene)
    × (q.gui.client.state.token ≡ demo_program.gui.client.state.token)
    × (q.gui.sent ≡ demo_program.gui.sent ++ packet pkt_login (s.username ∷ s.password ∷ []) ∷ [])
unfolding new_program new_login_screen show_login login_loop login_input login_key login_enter
    login_edit login_tab login_forward type_key is_empty demo_program
refused_login_enters_example =
    refused_login_enters counting refused_input demo_program refl refl refl
      (silent, (refused_wrong_password, tt)) refl

-- A worker waits at the port, another one tests isRunning_, and accept waits for a client.
abbrev busy_manager : NetworkManager
busy_manager = record {
  is_running = true;
  listen_socket = true;
  iocp = true;
  accept_thread = some blocking;
  workers = blocking ∷ at_test ∷ [];
  signals = 0;
}

destroy_manager_returns_example :
    ((destroy_manager false busy_manager ≡ none) ↔ (
      (busy_manager.accept_thread ≡ some blocking)
      × (busy_manager.listen_socket ≡ true)
      × (◌≡◌ {A = Bool} false false)))
    × ((destroy_manager false busy_manager ≢ none)
        → (m : NetworkManager) × (destroy_manager false busy_manager ≡ some m) × Ended m)
    × ((m : NetworkManager) × (destroy_manager false (shutdown busy_manager) ≡ some m) × Ended m)
destroy_manager_returns_example = destroy_manager_returns false busy_manager refl

abbrev all_listen : Listening
all_listen = record { socket_made = true; bound = true; listens = true }

abbrev idle_server : Server
idle_server = record demo_server { is_running = false }

-- The first worker is early, the second one handles a completion, and a client comes.
abbrev some_turns : List Turn
some_turns =
    worker_turn 1 none
    ∷ worker_turn 1 (some (by (λ v. v)))
    ∷ accept_turn none
    ∷ accept_turn (some (by (λ v. record v { fresh = 1 })))
    ∷ accept_turn none
    ∷ []

server_main_returns_example :
    (y : System) × (server_main true true true all_listen true
        (true ∷ [])
        some_turns
        false
        idle_server
      ≡ some (y, pos 0))
    × HasEnded y
unfolding create_listen_socket
server_main_returns_example =
    server_main_returns all_listen (true ∷ []) some_turns false idle_server refl refl
