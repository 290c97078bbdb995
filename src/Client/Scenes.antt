-- ===== src/Client/Scenes.antt =====
-- CodeNamesClient/src/gui/GUIManager.cpp: the scenes and what leads from one to the next, and the
-- submission of SignupScreen.cpp. What a screen gives back, and what arrives while a loop waits, are
-- arguments: a round of a wait brings a packet from the queue, or none.
pub mod Login
pub mod Signup
pub mod Requests
pub mod Program
pub mod Entry
pub mod Enrolment
use codenames_cpp_vibecoding.Prelude.{
  ℕ, ◌==◌, Bool, true, false, not, ◌&&◌, ◌||◌, List, [], ◌∷◌, ◌++◌, Option, none, some,
  if◌then◌else◌,
}
use codenames_cpp_vibecoding.Text.{Bytes, text, is_empty}
use codenames_cpp_vibecoding.Protocol.{packet, pkt_login, pkt_signup, pkt_query_wait}
use codenames_cpp_vibecoding.Client.{
  lobby, matching, playing, same_phase, GameState, Client, Notice, with_state, set_phase,
}
use codenames_cpp_vibecoding.Client.Packets.Dispatch.{process_packet}
use codenames_cpp_vibecoding.Client.Forms.{
  LoginResult, no_result, success, no_account, wrong_password, suspended, error_login, to_signup,
  LoginScreen, MainMenuOption, start_game_option, quit_option,
}

-- SceneState.
pub data SceneState : Type 0 where
  login_scene signup_scene main_menu_scene matching_scene game_scene result_scene exit_scene
        error_scene :
      SceneState

-- `connected` tells whether client_ is set; `sent` is what SendData was called with.
pub record Gui (O : Type 0) : Type 0 where
  pub client : Client O
  pub connected : Bool
  pub current_scene : SceneState
  pub sent : List Bytes

module _ {O : Type 0} where
  abbrev pub transition_scene : SceneState → Gui O → Gui O
  transition_scene s g = record g { current_scene = s }

-- The test that ends the wait for the server's answer.
abbrev pub is_in : GameState → Bool
is_in s = not (is_empty s.token) || same_phase s.current_phase lobby

abbrev is_escape : Option ℕ → Bool
is_escape none = false
is_escape (some key) = key == 27

-- SignupResult.
pub data SignupResult : Type 0 where
  signup_none signup_success signup_duplicate signup_failure signup_back : SignupResult

module _ {O : Type 0} (on : Notice → GameState → O → O) where
  unfoldable pub wait_round : Option Bytes → Client O → Client O
  wait_round none c = c
  wait_round (some p) c = if is_empty p then c else process_packet on p c

  -- The rounds until the deadline.
  unfoldable pub wait_for_entry : List (Option Bytes) → Client O → Client O × Bool
  unfolding wait_round
  wait_for_entry [] c = (c, false)
  wait_for_entry (p ∷ ps) c =
      let next = wait_round p c in
      let rest = wait_for_entry ps next in if is_in next.state then (next, true) else rest

  -- LoginSceneLoop with what the login screen gives back.
  unfoldable pub login_scene_loop : LoginScreen → List (Option Bytes) → Gui O → Gui O
  unfolding wait_for_entry
  login_scene_loop screen rounds g = elim screen.login_result [
    | success ↦
        let named = with_state g.client (record (g.client.state) { username = screen.username }) in
        if g.connected
        then (let (c, entered) = wait_for_entry rounds named in
            record g {
              client = c;
              sent = g.sent ++ packet pkt_login (screen.username ∷ screen.password ∷ []) ∷ [];
              current_scene = if entered then main_menu_scene else login_scene;
            })
        else record g {
          client =
              set_phase on lobby
                (with_state named (record (named.state) { token = screen.username }));
          current_scene = main_menu_scene;
        }
    | to_signup ↦ transition_scene signup_scene g
    | error_login ↦ transition_scene login_scene g
    | no_account ↦ transition_scene login_scene g
    | wrong_password ↦ transition_scene login_scene g
    | suspended ↦ transition_scene login_scene g
    | no_result ↦ transition_scene login_scene g
  ]

  unfoldable pub main_menu_scene_loop : MainMenuOption → Gui O → Gui O
  main_menu_scene_loop start_game_option g = record g {
    client = set_phase on matching g.client;
    current_scene = matching_scene;
  }
  main_menu_scene_loop quit_option g = transition_scene exit_scene g

  -- ENTER on the button of the signup screen: what is sent, and how it ends.
  unfoldable pub submit_signup :
      Bytes → Bytes → Bytes → List (Option Bytes) → Gui O → Gui O × SignupResult
  unfolding wait_for_entry
  submit_signup user pw nick rounds g =
      if is_empty user || (is_empty pw || is_empty nick)
      then (g, signup_failure)
      else if g.connected
      then (let (c, entered) = wait_for_entry rounds g.client in
          (
            record g {
              client = c;
              sent = g.sent ++ packet pkt_signup (user ∷ pw ∷ nick ∷ []) ∷ [];
            },
            if entered then signup_success else signup_failure,
          ))
      else (g, signup_success)

  unfoldable pub signup_scene_loop : SignupResult → Gui O → Gui O
  signup_scene_loop signup_success g = transition_scene main_menu_scene g
  signup_scene_loop _ g = transition_scene login_scene g

  -- The inner loop, and a round of the outer one with the key that was pressed.
  unfoldable pub drain_packets : List Bytes → Client O → Client O
  unfolding wait_round
  drain_packets [] c = c
  drain_packets (p ∷ ps) c = drain_packets ps (wait_round (some p) c)

  -- The loop of MatchingSceneLoop; without further rounds it still waits.
  unfoldable pub matching_rounds : List (List Bytes × Option ℕ) → Gui O → Gui O
  unfolding drain_packets
  matching_rounds [] g =
      if same_phase g.client.state.current_phase playing then transition_scene game_scene g else g
  matching_rounds ((packets, key) ∷ rounds) g =
      let next : Gui O = record g { client = drain_packets packets g.client } in
      let rest = matching_rounds rounds next in
      if same_phase g.client.state.current_phase playing
      then transition_scene game_scene g
      else if is_escape key
      then transition_scene main_menu_scene next
      else rest

  unfoldable pub matching_scene_loop : List (List Bytes × Option ℕ) → Gui O → Gui O
  unfolding matching_rounds
  matching_scene_loop rounds g =
      if g.connected && not (is_empty g.client.state.token)
      then matching_rounds rounds
          (record g { sent = g.sent ++ packet pkt_query_wait (g.client.state.token ∷ []) ∷ [] })
      else matching_rounds rounds g
