-- ===== src/Client/Scenes/Signup.antt =====
-- The keys of CodeNamesClient/src/gui/SignupScreen.cpp. A key is given with the key that a second
-- `_getch` would bring, and with the rounds in which the client would wait for the server.
use codenames_cpp_vibecoding.Prelude.{
  ℕ, ◌==◌, Bool, true, false, List, [], ◌∷◌, Option, if◌then◌else◌,
}
use codenames_cpp_vibecoding.Text.{Bytes}
use codenames_cpp_vibecoding.Client.{GameState, Notice}
use codenames_cpp_vibecoding.Client.Forms.{pop_back, type_key, is_prefix, is_back, is_forward}
use codenames_cpp_vibecoding.Client.Scenes.{
  SignupResult, signup_none, signup_back, Gui, submit_signup,
}

pub data SignupState : Type 0 where
  signup_id signup_password signup_nick submit_button back_button : SignupState

pub record SignupScreen : Type 0 where
  pub username : Bytes
  pub password : Bytes
  pub nickname : Bytes
  pub current_state : SignupState
  pub signup_result : SignupResult

unfoldable pub signup_up : SignupState → SignupState
signup_up signup_id = signup_id
signup_up signup_password = signup_id
signup_up signup_nick = signup_password
signup_up submit_button = signup_nick
signup_up back_button = submit_button

unfoldable pub signup_down : SignupState → SignupState
signup_down signup_id = signup_password
signup_down signup_password = signup_nick
signup_down signup_nick = submit_button
signup_down submit_button = back_button
signup_down back_button = back_button

unfoldable pub signup_tab : SignupState → SignupState
signup_tab signup_id = signup_password
signup_tab signup_password = signup_nick
signup_tab signup_nick = submit_button
signup_tab submit_button = back_button
signup_tab back_button = signup_id

-- A change of the field that has the focus.
unfoldable pub signup_edit : (Bytes → Bytes) → SignupState → SignupScreen → SignupScreen
signup_edit f signup_id s = record s { username = f s.username }
signup_edit f signup_password s = record s { password = f s.password }
signup_edit f signup_nick s = record s { nickname = f s.nickname }
signup_edit f _ s = s

abbrev pub focus : SignupState → SignupScreen → SignupScreen
focus p s = record s { current_state = p }

abbrev pub goes_on : SignupResult → Bool
goes_on signup_none = true
goes_on _ = false

module _ {O : Type 0} (on : Notice → GameState → O → O) where
  -- ENTER.
  unfoldable pub signup_enter :
      SignupState → List (Option Bytes) → SignupScreen → Gui O → SignupScreen × Gui O
  signup_enter submit_button rounds s g =
      let (after, outcome) = submit_signup on s.username s.password s.nickname rounds g in
      (record s { signup_result = outcome }, after)
  signup_enter back_button rounds s g = (record s { signup_result = signup_back }, g)
  signup_enter _ rounds s g = (s, g)

  -- The second `switch`.
  unfoldable pub signup_key : ℕ → List (Option Bytes) → SignupScreen → Gui O → SignupScreen × Gui O
  unfolding signup_tab signup_enter signup_edit
  signup_key key rounds s g =
      if key == 9
      then (focus (signup_tab s.current_state) s, g)
      else if key == 13
      then signup_enter s.current_state rounds s g
      else if key == 8
      then (signup_edit pop_back s.current_state s, g)
      else (signup_edit (type_key key) s.current_state s, g)

  unfoldable pub signup_input :
      ℕ → ℕ → List (Option Bytes) → SignupScreen → Gui O → SignupScreen × Gui O
  unfolding signup_up signup_down signup_key
  signup_input key next rounds s g =
      if is_prefix key
      then (if is_back next
          then (focus (signup_up s.current_state) s, g)
          else if is_forward next
          then (focus (signup_down s.current_state) s, g)
          else signup_key next rounds s g)
      else signup_key key rounds s g

  -- The loop of Show over the keys that come.
  unfoldable pub signup_loop :
      List (ℕ × ℕ × List (Option Bytes)) → SignupScreen → Gui O → SignupScreen × Gui O
  unfolding signup_input
  signup_loop [] s g = (s, g)
  signup_loop ((key, next, rounds) ∷ keys) s g =
      let (s', g') = signup_input key next rounds s g in
      let rest = signup_loop keys s' g' in if goes_on s.signup_result then rest else (s, g)

  unfoldable pub show_signup :
      List (ℕ × ℕ × List (Option Bytes)) → SignupScreen → Gui O → SignupScreen × Gui O
  unfolding signup_loop
  show_signup keys s g = signup_loop keys (record s { signup_result = signup_none }) g

-- The constructor.
unfoldable pub new_signup_screen : SignupScreen
new_signup_screen = record {
  username = [];
  password = [];
  nickname = [];
  current_state = signup_id;
  signup_result = signup_none;
}
