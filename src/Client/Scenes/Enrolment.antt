-- ===== src/Client/Scenes/Enrolment.antt =====
-- What the signup screen sends, whatever keys are pressed.
use codenames_cpp_vibecoding.Prelude.{
  ℕ, ◌≡◌, refl, sym, ap, ◌∙◌, arith, false, ◌==◌, ◌||◌, List, [], ◌∷◌, ◌++◌, Option, All,
  Bool-cases, inl, inr,
}
use mathlib.Core.List.{append-nil, append_assoc}
use codenames_cpp_vibecoding.Text.{Bytes, text, pipe, is_empty}
use codenames_cpp_vibecoding.Text.Fields.{Lacks}
use codenames_cpp_vibecoding.Protocol.{packet, pkt_signup}
use codenames_cpp_vibecoding.Protocol.Sizes.{length-packet}
use codenames_cpp_vibecoding.SessionManager.Auth.{signup, parse_auth}
use codenames_cpp_vibecoding.SessionManager.Auth.Reading.{parse_auth-packet}
use codenames_cpp_vibecoding.Client.{GameState, Notice}
use codenames_cpp_vibecoding.Client.Network.Limits.{FitsBuffer}
use codenames_cpp_vibecoding.Client.Forms.{pop_back, type_key, is_prefix, is_back, is_forward}
use codenames_cpp_vibecoding.Client.Forms.Fields.{IsField, type_key-IsField, pop_back-IsField}
use codenames_cpp_vibecoding.Client.Scenes.{signup_none, Gui, submit_signup}
use codenames_cpp_vibecoding.Client.Scenes.Signup.{
  SignupState, signup_id, signup_password, signup_nick, submit_button, back_button, SignupScreen,
  signup_up, signup_down, signup_tab, signup_edit, signup_enter, signup_key, signup_input,
  signup_loop, show_signup, focus, goes_on,
}

-- A packet of three filled fields, that SendData takes and the server reads as the signup with them.
pub record IsSignup (p : Bytes) : Type 0 where
  pub user : Bytes
  pub password : Bytes
  pub nick : Bytes
  pub user_field : IsField user
  pub password_field : IsField password
  pub nick_field : IsField nick
  pub filled : (is_empty user ≡ false) × (is_empty password ≡ false) × (is_empty nick ≡ false)
  pub fits : FitsBuffer p
  pub reads : Lacks pipe user → Lacks pipe password → parse_auth p ≡ signup user password nick

pub record ThreeFields (s : SignupScreen) : Type 0 where
  pub user : IsField s.username
  pub password : IsField s.password
  pub nick : IsField s.nickname

signup_packet-FitsBuffer :
    (u p k : Bytes)
    → IsField u
    → IsField p
    → IsField k
    → FitsBuffer (packet pkt_signup (u ∷ p ∷ k ∷ []))
unfolding text
signup_packet-FitsBuffer u p k fu fp fk =
    let size = length-packet pkt_signup (u ∷ p ∷ k ∷ []) in
    (omega (arith, size), omega (arith, size, fu.short, fp.short, fk.short))

-- Only such packets are added.
abbrev pub SendsSignups : List Bytes → List Bytes → Type 0
SendsSignups before after = (ps : List Bytes) × (after ≡ before ++ ps) × All IsSignup ps

nothing : (before after : List Bytes) → after ≡ before → SendsSignups before after
nothing before after e = ([], e ∙ sym (append-nil before), tt)

All-append : (ps qs : List Bytes) → All IsSignup ps → All IsSignup qs → All IsSignup (ps ++ qs)
All-append [] qs a b = b
All-append (p ∷ ps) qs a b = (a.0, All-append ps qs a.1 b)

both : (a b c : List Bytes) → SendsSignups a b → SendsSignups b c → SendsSignups a c
both a b c (ps, e, all) (qs, f, more) =
    (ps ++ qs, f ∙ ap (λ l. l ++ qs) e ∙ append_assoc a ps qs, All-append ps qs all more)

signup_edit-ThreeFields :
    (f : Bytes → Bytes) (m : SignupState) (s : SignupScreen)
    → ((t : Bytes) → IsField t → IsField (f t))
    → ThreeFields s
    → ThreeFields (signup_edit f m s)
unfolding signup_edit
signup_edit-ThreeFields f signup_id s h t = record {
  user = h s.username t.user;
  password = t.password;
  nick = t.nick;
}
signup_edit-ThreeFields f signup_password s h t = record {
  user = t.user;
  password = h s.password t.password;
  nick = t.nick;
}
signup_edit-ThreeFields f signup_nick s h t = record {
  user = t.user;
  password = t.password;
  nick = h s.nickname t.nick;
}
signup_edit-ThreeFields f submit_button s h t = t
signup_edit-ThreeFields f back_button s h t = t

focus-ThreeFields : (m : SignupState) (s : SignupScreen) → ThreeFields s → ThreeFields (focus m s)
focus-ThreeFields m s t = record { user = t.user; password = t.password; nick = t.nick }

module _ {O : Type 0} (on : Notice → GameState → O → O) where
  -- A step of the screen.
  abbrev Goes : Gui O → SignupScreen × Gui O → Type 0
  Goes g r = ThreeFields r.0 × SendsSignups g.sent r.1.sent

  still : (s : SignupScreen) (g : Gui O) → ThreeFields s → Goes g (s, g)
  still s g t = (t, nothing g.sent g.sent refl)

  submit_signup-SendsSignups :
      (s : SignupScreen) (rounds : List (Option Bytes)) (g : Gui O)
      → ThreeFields s
      → SendsSignups g.sent (submit_signup on s.username s.password s.nickname rounds g).0.sent
  unfolding submit_signup
  submit_signup-SendsSignups s rounds g t =
      elim (Bool-cases (is_empty s.username || (is_empty s.password || is_empty s.nickname))) [
        | inl e ↦ rw e (nothing g.sent g.sent refl)
        | inr e ↦ elim (Bool-cases g.connected) [
          | inr c ↦ rw (e, c) (nothing g.sent g.sent refl)
          | inl c ↦
              rw (e, c)
                (
                  packet pkt_signup (s.username ∷ s.password ∷ s.nickname ∷ []) ∷ [],
                  refl,
                  (
                    record {
                      user = s.username;
                      password = s.password;
                      nick = s.nickname;
                      user_field = t.user;
                      password_field = t.password;
                      nick_field = t.nick;
                      filled = (ground arith, ground arith, ground arith);
                      fits = signup_packet-FitsBuffer _ _ _ t.user t.password t.nick;
                      reads = λ l k. (parse_auth-packet s.username s.password s.nickname l k).1;
                    },
                    tt,
                  ),
                )
        ]
      ]

  signup_enter-Goes :
      (m : SignupState) (rounds : List (Option Bytes)) (s : SignupScreen) (g : Gui O)
      → ThreeFields s
      → Goes g (signup_enter on m rounds s g)
  unfolding signup_enter
  signup_enter-Goes submit_button rounds s g t = (
    record { user = t.user; password = t.password; nick = t.nick },
    submit_signup-SendsSignups s rounds g t,
  )
  signup_enter-Goes back_button rounds s g t =
      still _ g (record { user = t.user; password = t.password; nick = t.nick })
  signup_enter-Goes signup_id rounds s g t = still s g t
  signup_enter-Goes signup_password rounds s g t = still s g t
  signup_enter-Goes signup_nick rounds s g t = still s g t

  signup_key-Goes :
      (key : ℕ) (rounds : List (Option Bytes)) (s : SignupScreen) (g : Gui O)
      → ThreeFields s
      → Goes g (signup_key on key rounds s g)
  unfolding signup_key
  signup_key-Goes key rounds s g t = elim (Bool-cases (key == 9)) [
    | inl e ↦ rw e (still _ g (focus-ThreeFields (signup_tab s.current_state) s t))
    | inr e ↦ elim (Bool-cases (key == 13)) [
      | inl f ↦ rw (e, f) (signup_enter-Goes s.current_state rounds s g t)
      | inr f ↦ elim (Bool-cases (key == 8)) [
        | inl h ↦
            rw (e, f, h)
              (still _ g (signup_edit-ThreeFields pop_back s.current_state s pop_back-IsField t))
        | inr h ↦
            rw (e, f, h)
              (still _ g
                (signup_edit-ThreeFields (type_key key) s.current_state s (type_key-IsField key) t))
      ]
    ]
  ]

  signup_input-Goes :
      (key next : ℕ) (rounds : List (Option Bytes)) (s : SignupScreen) (g : Gui O)
      → ThreeFields s
      → Goes g (signup_input on key next rounds s g)
  unfolding signup_input
  signup_input-Goes key next rounds s g t = elim (Bool-cases (is_prefix key)) [
    | inr e ↦ rw e (signup_key-Goes key rounds s g t)
    | inl e ↦ elim (Bool-cases (is_back next)) [
      | inl f ↦ rw (e, f) (still _ g (focus-ThreeFields (signup_up s.current_state) s t))
      | inr f ↦ elim (Bool-cases (is_forward next)) [
        | inl h ↦ rw (e, f, h) (still _ g (focus-ThreeFields (signup_down s.current_state) s t))
        | inr h ↦ rw (e, f, h) (signup_key-Goes next rounds s g t)
      ]
    ]
  ]

  signup_loop-Goes :
      (keys : List (ℕ × ℕ × List (Option Bytes))) (s : SignupScreen) (g : Gui O)
      → ThreeFields s
      → Goes g (signup_loop on keys s g)
  unfolding signup_loop
  signup_loop-Goes [] s g t = still s g t
  signup_loop-Goes ((key, next, rounds) ∷ keys) s g t =
      elim (Bool-cases (goes_on s.signup_result)) [
        | inr e ↦ rw e (still s g t)
        | inl e ↦
            let step = signup_input-Goes key next rounds s g t in
            let r = signup_input on key next rounds s g in
            let rest = signup_loop-Goes keys r.0 r.1 step.0 in
            rw e (rest.0, both g.sent r.1.sent _ step.1 rest.1)
      ]

  -- Whatever keys are pressed on the signup screen, and whatever the server answers: if its fields
  -- are printable and at most 32 characters long at first, then all that the screen sends is
  -- signup packets of three such fields, none of them empty, of a size that SendData takes, and that
  -- the server reads as the signup with these fields where the user name and the password hold no
  -- delimiter.
  pub show_signup-SendsSignups :
      (keys : List (ℕ × ℕ × List (Option Bytes))) (s : SignupScreen) (g : Gui O)
      → ThreeFields s
      → SendsSignups g.sent (show_signup on keys s g).1.sent
  unfolding show_signup
  show_signup-SendsSignups keys s g t =
      (signup_loop-Goes keys (record s { signup_result = signup_none }) g
        (record { user = t.user; password = t.password; nick = t.nick })).1
