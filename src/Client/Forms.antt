-- ===== src/Client/Forms.antt =====
-- The input of CodeNamesClient/src/gui/LoginScreen.cpp and MainScreen.cpp. A key is
-- given with the key that a second `_getch` would bring, which is read only behind 224 or 0.
pub mod Fields
use codenames_cpp_vibecoding.Prelude.{
  ℕ, zero, suc, ◌+◌, ◌-◌, ◌%◌, ◌==◌, Bool, true, false, not, ◌&&◌, ◌||◌, List, [], ◌∷◌, ◌++◌,
  if◌then◌else◌, ltb, leb, length,
}
use codenames_cpp_vibecoding.Text.{Bytes, text, is_empty}
use codenames_cpp_vibecoding.Protocol.{packet, pkt_signup}

-- `s.pop_back()`
unfoldable pub pop_back : Bytes → Bytes
pop_back [] = []
pop_back (c ∷ []) = []
pop_back (c ∷ d ∷ s) = c ∷ pop_back (d ∷ s)

-- A printable key goes behind a field of fewer than 32 bytes.
unfoldable pub type_key : ℕ → Bytes → Bytes
type_key key s = if (leb 32 key && leb key 126) && ltb (length s) 32 then s ++ key ∷ [] else s

abbrev pub is_prefix : ℕ → Bool
is_prefix key = key == 224 || key == 0

abbrev pub is_back : ℕ → Bool
is_back key = key == 72 || key == 75

abbrev pub is_forward : ℕ → Bool
is_forward key = key == 80 || key == 77

pub data LoginState : Type 0 where
  id_input password_input login_button signup_button : LoginState

pub data LoginResult : Type 0 where
  no_result success no_account wrong_password suspended error_login to_signup : LoginResult

pub record LoginScreen : Type 0 where
  pub username : Bytes
  pub password : Bytes
  pub current_state : LoginState
  pub login_result : LoginResult

unfoldable pub login_back : LoginState → LoginState
login_back id_input = id_input
login_back password_input = id_input
login_back login_button = password_input
login_back signup_button = login_button

unfoldable pub login_forward : LoginState → LoginState
login_forward id_input = password_input
login_forward password_input = login_button
login_forward login_button = signup_button
login_forward signup_button = signup_button

unfoldable pub login_tab : LoginState → LoginState
login_tab id_input = password_input
login_tab password_input = login_button
login_tab login_button = signup_button
login_tab signup_button = id_input

-- ENTER.
unfoldable pub login_enter : LoginState → LoginScreen → LoginScreen
login_enter login_button s = record s {
  login_result = if is_empty s.username || is_empty s.password then error_login else success;
}
login_enter signup_button s = record s { login_result = to_signup }
login_enter _ s = s

-- A change of the field that has the focus.
unfoldable pub login_edit : (Bytes → Bytes) → LoginState → LoginScreen → LoginScreen
login_edit f id_input s = record s { username = f s.username }
login_edit f password_input s = record s { password = f s.password }
login_edit f _ s = s

-- The second `switch`.
unfoldable pub login_key : ℕ → LoginScreen → LoginScreen
unfolding login_tab login_enter login_edit pop_back type_key
login_key key s =
    if key == 9
    then record s { current_state = login_tab s.current_state }
    else if key == 13
    then login_enter s.current_state s
    else if key == 8
    then login_edit pop_back s.current_state s
    else login_edit (type_key key) s.current_state s

unfoldable pub login_input : ℕ → ℕ → LoginScreen → LoginScreen
unfolding login_back login_forward login_key
login_input key next s =
    if is_prefix key
    then (if is_back next
        then record s { current_state = login_back s.current_state }
        else if is_forward next
        then record s { current_state = login_forward s.current_state }
        else login_key next s)
    else login_key key s

abbrev pub is_none : LoginResult → Bool
is_none no_result = true
is_none _ = false

-- The loop of Show over the keys that come.
unfoldable pub login_loop : List (ℕ × ℕ) → LoginScreen → LoginScreen
unfolding login_input
login_loop [] s = s
login_loop ((key, next) ∷ keys) s =
    if is_none s.login_result then login_loop keys (login_input key next s) else s

-- The constructor; Show resets the result and keeps the fields.
unfoldable pub new_login_screen : LoginScreen
new_login_screen = record {
  username = [];
  password = [];
  current_state = id_input;
  login_result = no_result;
}

unfoldable pub show_login : List (ℕ × ℕ) → LoginScreen → LoginScreen
unfolding login_loop
show_login keys s = login_loop keys (record s { login_result = no_result })

-- MainScreen::HandleInput: the selection, and the option if the key confirms one.
pub data MainMenuOption : Type 0 where
  start_game_option quit_option : MainMenuOption

pub record MainScreen : Type 0 where
  pub selected_option : MainMenuOption
  pub current_selection : ℕ

unfoldable pub new_main_screen : MainScreen
new_main_screen = record { selected_option = start_game_option; current_selection = 0 }

unfoldable pub confirm : ℕ → MainScreen → MainScreen × Bool
confirm zero s = (record s { selected_option = start_game_option }, true)
confirm (suc zero) s = (record s { selected_option = quit_option }, true)
confirm (suc (suc n)) s = (s, false)

-- `current_selection - 1 + 2` is written as a sum.
unfoldable pub main_input : ℕ → ℕ → MainScreen → MainScreen × Bool
unfolding confirm
main_input key next s =
    if key == 49
    then (record s { selected_option = start_game_option }, true)
    else if key == 50
    then (record s { selected_option = quit_option }, true)
    else if key == 224
    then (if next == 72
        then (record s { current_selection = (s.current_selection + 1) % 2 }, false)
        else if next == 80
        then (record s { current_selection = (s.current_selection + 1) % 2 }, false)
        else (s, false))
    else if key == 13 || key == 10
    then confirm s.current_selection s
    else (s, false)
