-- ===== src/Client/Scenes/Program.antt =====
-- GUIManager::Run of CodeNamesClient/src/gui/GUIManager.cpp with the tasks of
-- CodeNamesClient/src/main.cpp, the loop of MainScreen.cpp, and ResultScreen.cpp. What a scene is
-- given by the user and by the server is an argument of its round; a scene whose keys run out still
-- waits.
use codenames_cpp_vibecoding.Prelude.{
  ℕ, suc, ◌*◌, ◌/◌, ◌-◌, Bool, true, false, List, [], ◌∷◌, ◌++◌, Option, none, some, if◌then◌else◌,
  ltb, leb, ℤ, pos, negsuc,
}
use codenames_cpp_vibecoding.Text.{Bytes, text, to_string}
use codenames_cpp_vibecoding.Client.{
  lobby, GameState, Client, Notice, set_phase, show_status, add_observer, eq_ℤ,
}
use codenames_cpp_vibecoding.Client.Packets.Dispatch.{process_packet}
use codenames_cpp_vibecoding.Client.Network.{Task, enter_lobby, show_disconnected}
use codenames_cpp_vibecoding.Client.Forms.{
  LoginScreen, new_login_screen, show_login, is_none, MainScreen, MainMenuOption, new_main_screen,
  main_input,
}
use codenames_cpp_vibecoding.Client.Scenes.{
  SceneState, login_scene, signup_scene, main_menu_scene, matching_scene, game_scene, result_scene,
  exit_scene, error_scene, Gui, transition_scene, login_scene_loop, main_menu_scene_loop,
  signup_scene_loop, matching_scene_loop,
}
use codenames_cpp_vibecoding.Client.Scenes.Signup.{
  SignupScreen, new_signup_screen, show_signup, goes_on,
}

-- MainScreen::Show over the keys that come: the option that a key confirms.
unfoldable pub show_main : List (ℕ × ℕ) → MainScreen → MainScreen × Option MainMenuOption
show_main [] s = (s, none)
show_main ((key, next) ∷ keys) s =
    let (after, confirmed) = main_input key next s in
    let rest = show_main keys after in
    if confirmed then (after, some after.selected_option) else rest

-- The progress bar of MatchingSceneLoop: how many `#` and how many spaces it has. `none` where
-- std::string is given a negative length, and throws.
abbrev shown_max : ℤ → ℕ
shown_max (pos (suc m)) = suc m
shown_max _ = 6

unfoldable pub progress_bar : ℤ → ℤ → Option (ℕ × ℕ)
progress_bar (pos c) m =
    let filled = c * 30 / shown_max m in if leb filled 30 then some (filled, 30 - filled) else none
progress_bar (negsuc c) m = if ltb (suc c * 30) (shown_max m) then some (0, 30) else none

-- ResultType, and the screen's own state.
pub data ResultType : Type 0 where
  win lose draw : ResultType

pub record ResultScreen : Type 0 where
  pub result_type : ResultType
  pub winner_team : ℤ

unfoldable pub new_result_screen : ResultScreen
new_result_screen = record { result_type = draw; winner_team = negsuc 0 }

unfoldable pub get_result_message : ResultType → Bytes
get_result_message win = text "YOU WIN!"
get_result_message lose = text "YOU LOSE!"
get_result_message draw = text "GAME OVER"

winner_line : ℤ → List Bytes
winner_line (negsuc t) = []
winner_line (pos t) =
    (text "Winner: " ++ (if eq_ℤ (pos t) (pos 0) then text "RED TEAM" else text "BLUE TEAM")) ∷ []

-- The lines of DrawResult from the top.
unfoldable pub draw_result : GameState → ResultScreen → List Bytes
unfolding get_result_message winner_line
draw_result g s =
    text "=== GAME RESULT ==="
    ∷ get_result_message s.result_type
    ∷ (text "RED: " ++ (to_string g.red_score ++ (text " | BLUE: " ++ to_string g.blue_score)))
    ∷ winner_line s.winner_team

-- GUIManager with its screens.
pub record Program (O : Type 0) : Type 0 where
  pub gui : Gui O
  pub login_screen : LoginScreen
  pub signup_screen : SignupScreen
  pub main_screen : MainScreen

-- The constructor: the game screen, at `screen`, observes the game state.
unfoldable pub new_program : {O : Type 0} → ℕ → Client O → Program O
new_program screen c = record {
  gui = record {
    client = add_observer (some screen) c;
    connected = false;
    current_scene = login_scene;
    sent = [];
  };
  login_screen = new_login_screen;
  signup_screen = new_signup_screen;
  main_screen = new_main_screen;
}

unfoldable pub set_network_client : {O : Type 0} → Program O → Program O
set_network_client p = record p { gui = record (p.gui) { connected = true } }

-- What the user and the server do in one call of a scene: the keys of the screens, each with a second
-- one, the rounds of the waits, and what GameScreen::Show makes of the client.
pub record Input (O : Type 0) : Type 0 where
  pub keys : List (ℕ × ℕ)
  pub answers : List (Option Bytes)
  pub signup_keys : List (ℕ × ℕ × List (Option Bytes))
  pub rounds : List (List Bytes × Option ℕ)
  pub show_game : Client O → Client O

module _ {O : Type 0} where
  unfoldable pub game_scene_loop : (Client O → Client O) → Gui O → Gui O
  game_scene_loop show g = transition_scene result_scene (record g { client = show g.client })

  unfoldable pub result_scene_loop : Gui O → Gui O
  result_scene_loop g = transition_scene main_menu_scene g

  abbrev with_gui : Program O → Gui O → Program O
  with_gui p g = record p { gui = g }

module _ {O : Type 0} (on : Notice → GameState → O → O) where
  -- The functions that main's callbacks put into g_mainTasks.
  unfoldable pub run_task : Task → Client O → Client O
  run_task enter_lobby c = set_phase on lobby c
  run_task show_disconnected c = show_status (text "Network: Disconnected from server!") c

  unfoldable pub run_tasks : List Task → Client O → Client O
  unfolding run_task
  run_tasks [] c = c
  run_tasks (t ∷ ts) c = run_tasks ts (run_task t c)

  unfoldable pub process_packets : List Bytes → Client O → Client O
  process_packets [] c = c
  process_packets (d ∷ ds) c = process_packets ds (process_packet on d c)

  menu_chosen : Option MainMenuOption → Gui O → Gui O
  menu_chosen none g = g
  menu_chosen (some o) g = main_menu_scene_loop on o g

  -- A call of the scene's loop; the fields of the screens stay for the next call.
  unfoldable pub scene_loop : SceneState → Input O → Program O → Program O
  unfolding menu_chosen game_scene_loop result_scene_loop
  scene_loop login_scene i p =
      let s = show_login i.keys p.login_screen in
      record p {
        login_screen = s;
        gui = if is_none s.login_result then p.gui else login_scene_loop on s i.answers p.gui;
      }
  scene_loop signup_scene i p =
      let (s, g) = show_signup on i.signup_keys p.signup_screen p.gui in
      record p {
        signup_screen = s;
        gui = if goes_on s.signup_result then g else signup_scene_loop on s.signup_result g;
      }
  scene_loop main_menu_scene i p =
      let (s, chosen) = show_main i.keys p.main_screen in
      record p { main_screen = s; gui = menu_chosen chosen p.gui }
  scene_loop matching_scene i p = with_gui p (matching_scene_loop on i.rounds p.gui)
  scene_loop game_scene i p = with_gui p (game_scene_loop i.show_game p.gui)
  scene_loop result_scene i p = with_gui p (result_scene_loop p.gui)
  scene_loop exit_scene i p = p
  scene_loop error_scene i p = with_gui p (transition_scene exit_scene p.gui)

  -- What a round of Run takes from the two queues, before the scene.
  unfoldable pub drain_queues : List Task → List Bytes → Program O → Program O
  unfolding run_tasks process_packets
  drain_queues tasks packets p =
      with_gui p
        (record (p.gui) { client = process_packets packets (run_tasks tasks p.gui.client) })

  abbrev is_exit : SceneState → Bool
  is_exit exit_scene = true
  is_exit _ = false

  -- The rounds of Run, each with the tasks and the packets that wait. A round whose scene still waits
  -- is the last one.
  unfoldable pub run_gui : List (List Task × List Bytes × Input O) → Program O → Program O
  unfolding drain_queues scene_loop
  run_gui [] p = p
  run_gui ((tasks, packets, i) ∷ rounds) p =
      let drained = drain_queues tasks packets p in
      run_gui rounds
        (if is_exit p.gui.current_scene then p else scene_loop p.gui.current_scene i drained)
