-- ===== src/Client/Forms/Fields.antt =====
-- What stands in the fields of the login screen, and when the login goes on.
use codenames_cpp_vibecoding.Prelude.{
  ℕ, ◌≤◌, ◌≡◌, refl, ◌∙◌, sym, arith, true, false, ◌&&◌, ◌||◌, List, [], ◌∷◌, ◌++◌, All, length,
  length-append, Bool-cases, inl, inr, ltb, leb, ◌==◌,
}
use codenames_cpp_vibecoding.Text.{Bytes, is_empty}
use codenames_cpp_vibecoding.Client.Forms.{
  pop_back, type_key, LoginState, id_input, password_input, login_button, signup_button,
  LoginResult, no_result, success, no_account, wrong_password, suspended, error_login, to_signup,
  LoginScreen, login_enter, login_edit, login_key, login_input, login_loop, show_login, is_prefix,
  is_back, is_forward, is_none,
}

abbrev pub IsPrintable : ℕ → Type 0
IsPrintable c = (32 ≤ c) × (c ≤ 126)

-- At most 32 printable ASCII characters.
pub record IsField (s : Bytes) : Type 0 where
  pub printable : All IsPrintable s
  pub short : length s ≤ 32

pub record IsFilled (s : LoginScreen) : Type 0 where
  pub name : IsField s.username
  pub secret : IsField s.password
  pub complete :
      s.login_result ≡ success → (is_empty s.username ≡ false) × (is_empty s.password ≡ false)

All-snoc : (s : Bytes) (c : ℕ) → All IsPrintable s → IsPrintable c → All IsPrintable (s ++ c ∷ [])
All-snoc [] c a p = (p, tt)
All-snoc (d ∷ s) c a p = (a.0, All-snoc s c a.1 p)

pub type_key-IsField : (key : ℕ) (s : Bytes) → IsField s → IsField (type_key key s)
unfolding type_key
type_key-IsField key s f = elim (Bool-cases ((leb 32 key && leb key 126) && ltb (length s) 32)) [
  | inr e ↦ rw (e, type_key) f
  | inl e ↦
      rw (e, type_key)
        (record {
          printable = All-snoc s key f.printable (ground arith, ground arith);
          short = ground (arith, length-append s (key ∷ []));
        })
]

pop_back-All : (s : Bytes) → All IsPrintable s → All IsPrintable (pop_back s)
unfolding pop_back
pop_back-All [] a = tt
pop_back-All (c ∷ []) a = tt
pop_back-All (c ∷ d ∷ s) a = (a.0, pop_back-All (d ∷ s) a.1)

length-pop_back : (s : Bytes) → length (pop_back s) ≤ length s
unfolding pop_back
length-pop_back [] = omega arith
length-pop_back (c ∷ []) = omega arith
length-pop_back (c ∷ d ∷ s) = omega (arith, length-pop_back (d ∷ s))

pub pop_back-IsField : (s : Bytes) → IsField s → IsField (pop_back s)
pop_back-IsField s f = record {
  printable = pop_back-All s f.printable;
  short = omega (arith, length-pop_back s, f.short);
}

-- Before the result is set.
record IsOpen (s : LoginScreen) : Type 0 where
  pub name : IsField s.username
  pub secret : IsField s.password
  pub waits : s.login_result ≡ no_result

unsuccessful : {A : Type 0} → no_result ≡ success → A
unsuccessful e = cc

open-IsFilled : (s : LoginScreen) → IsOpen s → IsFilled s
open-IsFilled s o = record {
  name = o.name;
  secret = o.secret;
  complete = λ e. unsuccessful (sym o.waits ∙ e);
}

edit-IsOpen :
    (f : Bytes → Bytes) (m : LoginState) (s : LoginScreen)
    → ((t : Bytes) → IsField t → IsField (f t))
    → IsOpen s
    → IsOpen (login_edit f m s)
unfolding login_edit
edit-IsOpen f id_input s k o = record {
  name = k s.username o.name;
  secret = o.secret;
  waits = o.waits;
}
edit-IsOpen f password_input s k o = record {
  name = o.name;
  secret = k s.password o.secret;
  waits = o.waits;
}
edit-IsOpen f login_button s k o = o
edit-IsOpen f signup_button s k o = o

enter-IsFilled : (m : LoginState) (s : LoginScreen) → IsOpen s → IsFilled (login_enter m s)
unfolding login_enter
enter-IsFilled id_input s o = open-IsFilled s o
enter-IsFilled password_input s o = open-IsFilled s o
enter-IsFilled signup_button s o = record { name = o.name; secret = o.secret; complete = λ e. cc }
enter-IsFilled login_button s o = elim (Bool-cases (is_empty s.username || is_empty s.password)) [
  | inl e ↦ rw (e, login_enter) (record { name = o.name; secret = o.secret; complete = λ q. cc })
  | inr e ↦
      rw (e, login_enter)
        (record { name = o.name; secret = o.secret; complete = λ q. (ground arith, ground arith) })
]

login_key-IsFilled : (key : ℕ) (s : LoginScreen) → IsOpen s → IsFilled (login_key key s)
unfolding login_key
login_key-IsFilled key s o = elim (Bool-cases (key == 9)) [
  | inl e ↦
      rw (e, login_key)
        (open-IsFilled _ (record { name = o.name; secret = o.secret; waits = o.waits }))
  | inr e ↦ elim (Bool-cases (key == 13)) [
    | inl e2 ↦ rw (e, e2, login_key) (enter-IsFilled s.current_state s o)
    | inr e2 ↦ elim (Bool-cases (key == 8)) [
      | inl e3 ↦
          rw (e, e2, e3, login_key)
            (open-IsFilled _ (edit-IsOpen pop_back s.current_state s pop_back-IsField o))
      | inr e3 ↦
          rw (e, e2, e3, login_key)
            (open-IsFilled _
              (edit-IsOpen (type_key key) s.current_state s (type_key-IsField key) o))
    ]
  ]
]

login_input-IsFilled :
    (key next : ℕ) (s : LoginScreen) → IsOpen s → IsFilled (login_input key next s)
unfolding login_input
login_input-IsFilled key next s o = elim (Bool-cases (is_prefix key)) [
  | inr e ↦ rw (e, login_input) (login_key-IsFilled key s o)
  | inl e ↦ elim (Bool-cases (is_back next)) [
    | inl e2 ↦
        rw (e, e2, login_input)
          (open-IsFilled _ (record { name = o.name; secret = o.secret; waits = o.waits }))
    | inr e2 ↦ elim (Bool-cases (is_forward next)) [
      | inl e3 ↦
          rw (e, e2, e3, login_input)
            (open-IsFilled _ (record { name = o.name; secret = o.secret; waits = o.waits }))
      | inr e3 ↦ rw (e, e2, e3, login_input) (login_key-IsFilled next s o)
    ]
  ]
]

is_none_sound : (r : LoginResult) → is_none r ≡ true → r ≡ no_result
is_none_sound no_result e = refl
is_none_sound success e = cc
is_none_sound no_account e = cc
is_none_sound wrong_password e = cc
is_none_sound suspended e = cc
is_none_sound error_login e = cc
is_none_sound to_signup e = cc

login_loop-IsFilled :
    (keys : List (ℕ × ℕ)) (s : LoginScreen) → IsFilled s → IsFilled (login_loop keys s)
unfolding login_loop
login_loop-IsFilled [] s f = f
login_loop-IsFilled ((key, next) ∷ keys) s f = elim (Bool-cases (is_none s.login_result)) [
  | inr e ↦ rw (e, login_loop) f
  | inl e ↦
      rw (e, login_loop)
        (login_loop-IsFilled keys (login_input key next s) (
          login_input-IsFilled key next s
            (record { name = f.name; secret = f.secret; waits = is_none_sound s.login_result e })))
]

-- Whatever keys are pressed, the user name and the password of the login screen stay fields of at most
-- 32 printable characters if they are that at first, and where the screen reports success, neither
-- is empty.
pub show_login-IsFilled :
    (keys : List (ℕ × ℕ)) (s : LoginScreen)
    → IsField s.username
    → IsField s.password
    → IsFilled (show_login keys s)
unfolding show_login
show_login-IsFilled keys s name secret =
    login_loop-IsFilled keys (record s { login_result = no_result })
      (open-IsFilled _ (record { name = name; secret = secret; waits = refl }))
