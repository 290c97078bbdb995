-- ===== src/SessionManager/Auth/Answers.antt =====
-- What an authentication packet can do to the sessions.
use codenames_cpp_vibecoding.Prelude.{
  ℕ, ◌≤◌, ◌<◌, ◌≡◌, ◌≢◌, refl, ◌∙◌, ap, arith, Bool, true, false, [], ◌∷◌, Option, none, some, ◌⊎◌,
  inl, inr, Bool-cases, if◌then◌else◌, length, get_elem?,
}
use codenames_cpp_vibecoding.Outcome.{returned, Answers, Answers-bind, Anything}
use codenames_cpp_vibecoding.Protocol.{
  pkt_check_id_duplicate, pkt_check_id_ok, pkt_signup_error, pkt_login_no_account,
  pkt_login_wrong_pw, pkt_login_suspended, pkt_login_error, pkt_token_valid, pkt_invalid_token,
  pkt_edit_nick, pkt_nickname_edit_ok, pkt_nickname_edit_error, pkt_auth_error_unknown, packet,
  payload,
}
use codenames_cpp_vibecoding.Database.Queries.Returns.{
  check_id_exists-Answers, login_user-Answers, get_user_info_by_token-Answers,
}
use codenames_cpp_vibecoding.Text.{Bytes, is_empty, bytes_eq, starts_with, text, split_at}
use codenames_cpp_vibecoding.Protocol.Parsing.{packet_two}
use codenames_cpp_vibecoding.Session.{
  World, Session, UserInfo, in_lobby, modify, post_send, set_nickname, set_state,
}
use codenames_cpp_vibecoding.Session.Heap.{modify_self, modify_other, modify_log}
use codenames_cpp_vibecoding.Session.Sending.{post_send_sessions}
use codenames_cpp_vibecoding.Database.{
  DatabaseResult, success, not_found, wrong_password, suspended, Sqlite, Db,
}
use codenames_cpp_vibecoding.Database.Queries.{check_id_exists, login_user, get_user_info_by_token}
use codenames_cpp_vibecoding.Database.Signup.{signup_user}
use codenames_cpp_vibecoding.SessionManager.Auth.{
  AuthRequest, check_id, signup, bad_signup, login, bad_login, token, edit_nick, bad_edit, unknown,
  parse_auth, admit, enrol, login_loaded, login_answer, handle_auth_request, handle_auth_protocol,
}
use codenames_cpp_vibecoding.SessionManager.Auth.Replies.{
  answers, Replied, IsShort, reply_tag, reply_field, enrol-Replied, admit-Replied,
}

-- A session's state machine leaves the authentication only by a login that the database accepts.
abbrev LoggedIn : (S : Sqlite) → (Bytes → ℕ) → AuthRequest → Db S → Type 0
LoggedIn S hash q d =
    (id : Bytes) × (pw : Bytes) × (d' : Db S) × (q ≡ login id pw)
    × (login_user S hash false id pw d ≡ returned (success, d'))

-- The request is answered, only the session `p` is touched, and its state changes by nothing but a
-- login.
pub record Effects (S : Sqlite) (hash : Bytes → ℕ) (p : ℕ) (q : AuthRequest) (w : World) (d : Db S)
    (w' : World) : Type 0 where
  pub replied : Replied p q w w'
  pub others : (r : ℕ) → r ≢ p → w'.sessions r ≡ w.sessions r
  pub state :
      ((w'.sessions p).current_state ≡ (w.sessions p).current_state)
      ⊎ (((w'.sessions p).current_state ≡ in_lobby) × LoggedIn S hash q d)

-- What is written goes to the session itself, and keeps its state.
Only : ℕ → World → World → Type 0
Only p w w' =
    ((r : ℕ) → r ≢ p → w'.sessions r ≡ w.sessions r)
    × ((w'.sessions p).current_state ≡ (w.sessions p).current_state)

Only-refl : (p : ℕ) (w : World) → Only p w w
unfolding Only
Only-refl p w = (λ r h. refl, refl)

Only-send : (p : ℕ) (m : Bytes) (w v : World) → Only p w v → Only p w (post_send p m v)
unfolding Only
Only-send p m w v o = rw (post_send_sessions p m v) o

Only-modify :
    (p : ℕ) (f : Session → Session) (w v : World)
    → ((s : Session) → (f s).current_state ≡ s.current_state)
    → Only p w v
    → Only p w (modify p f v)
unfolding Only
Only-modify p f w v keep o = (
  λ r h. modify_other p r f v h ∙ o.0 r h,
  ap (λ (s : Session). s.current_state) (modify_self p f v) ∙ keep (v.sessions p) ∙ o.1,
)

enrol-Only :
    (draws : ℕ → ℕ) (p : ℕ) (nick : Bytes) (r : DatabaseResult) (w : World)
    → Only p w (enrol draws p nick r w)
unfolding enrol
enrol-Only draws p nick success w =
    Only-send p _ w _
      (Only-modify p _ w _ (λ s. refl) (Only-modify p _ w _ (λ s. refl) (Only-refl p w)))
enrol-Only draws p nick _ w = Only-send p _ w _ (Only-refl p w)

admit_effects :
    (draws : ℕ → ℕ) (p : ℕ) (info : UserInfo) (w : World)
    → ((r : ℕ) → r ≢ p → (admit draws p info w).sessions r ≡ w.sessions r)
      × (((admit draws p info w).sessions p).current_state ≡ in_lobby)
unfolding admit Only
admit_effects draws p info w =
    let before = Only-send p _ w _ (
      Only-modify p _ w _ (λ s. refl)
        (Only-modify p _ w _ (λ s. refl)
          (Only-modify p _ w _ (λ s. refl) (Only-modify p _ w _ (λ s. refl) (Only-refl p w))))) in
    (
      λ r h. modify_other p r (set_state in_lobby) _ h ∙ before.0 r h,
      ap (λ (s : Session). s.current_state) (modify_self p (set_state in_lobby) _),
    )

parse_blank_edit :
    (nick : Bytes) → parse_auth (packet pkt_edit_nick ([] ∷ nick ∷ [])) ≡ edit_nick [] nick
unfolding parse_auth payload starts_with text split_at
parse_blank_edit nick = rw (packet_two pkt_edit_nick [] nick) refl

module _ (S : Sqlite) (hash : Bytes → ℕ) (salt_draws token_draws : ℕ → ℕ) where
  stays :
      (p : ℕ) (q : AuthRequest) (w w' : World) (d : Db S)
      → Replied p q w w'
      → Only p w w'
      → Effects S hash p q w d w'
  unfolding Only
  stays p q w w' d r o = record { replied = r; others = o.0; state = inl o.1 }

  -- A bare answer and nothing else.
  tells :
      (p i : ℕ) (q : AuthRequest) (t : Bytes) (w : World) (d : Db S)
      → get_elem? (answers q) i ≡ some t
      → IsShort t
      → Effects S hash p q w d (post_send p t w)
  tells p i q t w d e h =
      stays p q w _ d (reply_tag p i q t w w e h refl) (Only-send p t w w (Only-refl p w))

  module _ (fair : (i : ℕ) → token_draws i < 62) where
    login_answer-Answers :
        (p : ℕ) (id pw : Bytes) (r : DatabaseResult) (w : World) (d d' : Db S)
        → login_user S hash false id pw d ≡ returned (r, d')
        → Answers
            (λ x. Effects S hash p (login id pw) w d x.0)
            (login_answer S hash salt_draws token_draws p id r w d')
    unfolding login_answer text is_empty
    login_answer-Answers p id pw success w d d' e =
        Answers-bind Anything _ (get_user_info_by_token S false id d') _
          (get_user_info_by_token-Answers S id d') (λ a f. loaded a.0)
      where
        loaded :
            (o : Option UserInfo)
            → Effects S hash p (login id pw) w d (login_loaded S hash salt_draws token_draws p o w)
        loaded none = tells p 4 (login id pw) pkt_login_error w d refl (refl, omega arith)
        loaded (some info) =
            let (others, state) = admit_effects token_draws p info w in
            record {
              replied = admit-Replied token_draws p id pw info w fair;
              others = others;
              state = inr (state, (id, pw, d', refl, e));
            }
    login_answer-Answers p id pw not_found w d d' e =
        tells p 1 (login id pw) pkt_login_no_account w d refl (refl, omega arith)
    login_answer-Answers p id pw wrong_password w d d' e =
        tells p 2 (login id pw) pkt_login_wrong_pw w d refl (refl, omega arith)
    login_answer-Answers p id pw suspended w d d' e =
        tells p 3 (login id pw) pkt_login_suspended w d refl (refl, omega arith)
    login_answer-Answers p id pw _ w d d' e =
        tells p 4 (login id pw) pkt_login_error w d refl (refl, omega arith)

    request-Answers :
        (p : ℕ) (q : AuthRequest) (w : World) (d : Db S)
        → length (w.sessions p).username ≤ 4000
        → Answers
            (λ x. Effects S hash p q w d x.0)
            (handle_auth_request S hash salt_draws token_draws p q w d)
    unfolding handle_auth_request signup_user text is_empty
    request-Answers p (check_id id) w d l =
        Answers-bind Anything _ (check_id_exists S false id d) _ (check_id_exists-Answers S id d)
          (λ a e. told a.0)
      where
        told :
            (taken : Bool)
            → Effects S hash p
                (check_id id)
                w
                d
                (post_send p (if taken then pkt_check_id_duplicate else pkt_check_id_ok) w)
        told true = tells p 0 (check_id id) pkt_check_id_duplicate w d refl (refl, omega arith)
        told false = tells p 1 (check_id id) pkt_check_id_ok w d refl (refl, omega arith)
    request-Answers p (signup id pw nick) w d l =
        stays p _ w _ d (enrol-Replied token_draws p id pw nick _ w fair)
          (enrol-Only token_draws p nick _ w)
    request-Answers p bad_signup w d l =
        tells p 0 bad_signup pkt_signup_error w d refl (refl, omega arith)
    request-Answers p (login id pw) w d l =
        Answers-bind Anything _ (login_user S hash false id pw d) _
          (login_user-Answers S hash id pw d) (λ a e. login_answer-Answers p id pw a.0 w d a.1 e)
    request-Answers p bad_login w d l =
        tells p 0 bad_login pkt_login_error w d refl (refl, omega arith)
    request-Answers p (token t) w d l = elim (Bool-cases (bytes_eq t (w.sessions p).token)) [
      | inl e ↦ rw e (
          stays p _ w _ d
            (reply_field p 0 (token t) pkt_token_valid _ w w refl (refl, omega arith) l refl)
            (Only-send p _ w _ (Only-refl p w)))
      | inr e ↦ rw e (tells p 1 (token t) pkt_invalid_token w d refl (refl, omega arith))
    ]
    request-Answers p (edit_nick t nick) w d l =
        elim (Bool-cases (bytes_eq t (w.sessions p).token)) [
          | inl e ↦ rw e (
              stays p _ w _ d
                (reply_tag p 0 (edit_nick t nick) pkt_nickname_edit_ok w _ refl (refl, omega arith)
                  (modify_log _ _ _))
                (Only-send p _ w _ (Only-modify p _ w _ (λ s. refl) (Only-refl p w))))
          | inr e ↦
              rw e (tells p 1 (edit_nick t nick) pkt_invalid_token w d refl (refl, omega arith))
        ]
    request-Answers p bad_edit w d l =
        tells p 0 bad_edit pkt_nickname_edit_error w d refl (refl, omega arith)
    request-Answers p unknown w d l =
        tells p 0 unknown pkt_auth_error_unknown w d refl (refl, omega arith)

    -- Unless a null column of the database kills the call, an authentication packet is answered by
    -- exactly one message, which goes to the session that sent it and is one of the answers to its
    -- request; no mutex is locked twice. No session but its own is touched, and the state of that one
    -- changes only to IN_LOBBY, and only if the packet is a LOGIN that the database accepts. The
    -- draws for a token are below 62, and the session's name has at most 4000 bytes, so that the
    -- answer to TOKEN fits the send buffer.
    pub handle_auth_protocol-Answers :
        (p : ℕ) (content : Bytes) (w : World) (d : Db S)
        → length (w.sessions p).username ≤ 4000
        → Answers
            (λ x. Effects S hash p (parse_auth content) w d x.0)
            (handle_auth_protocol S hash salt_draws token_draws p content w d)
    unfolding handle_auth_protocol
    handle_auth_protocol-Answers p content w d l = request-Answers p (parse_auth content) w d l

  -- A session that has never logged in, whose token is still empty, renames itself by EDIT_NICK
  -- with an empty token.
  pub edit_nick_without_login :
      (p : ℕ) (nick : Bytes) (w : World) (d : Db S)
      → (w.sessions p).token ≡ []
      → (w' : World) × (handle_auth_protocol S hash salt_draws token_draws p
            (packet pkt_edit_nick ([] ∷ nick ∷ []))
            w
            d
          ≡ returned (w', d))
        × ((w'.sessions p).username ≡ nick)
  unfolding handle_auth_protocol handle_auth_request bytes_eq
  edit_nick_without_login p nick w d empty =
      let renamed = modify p (set_nickname nick) w in
      (
        post_send p pkt_nickname_edit_ok renamed,
        rw (parse_blank_edit nick, empty, handle_auth_request) refl,
        rw (post_send_sessions p pkt_nickname_edit_ok renamed)
            (ap (λ (s : Session). s.username) (modify_self p (set_nickname nick) w)),
      )
