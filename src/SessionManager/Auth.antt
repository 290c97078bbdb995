-- ===== src/SessionManager/Auth.antt =====
-- SessionManager::HandleAuthProtocol: what a client may ask before it is logged in. The database
-- calls are those of Database.antt; GetDatabaseManager is the address of the singleton, never null.
pub mod Replies
pub mod Answers
pub mod Reading
use codenames_cpp_vibecoding.Prelude.{
  ℕ, Bool, true, false, List, [], ◌∷◌, ◌++◌, Option, none, some, if◌then◌else◌,
}
use codenames_cpp_vibecoding.Outcome.{Outcome, returned, ◌>>=◌}
use codenames_cpp_vibecoding.Text.{Bytes, bytes_eq, split_at, pipe}
use codenames_cpp_vibecoding.Protocol.{
  pkt_check_id, pkt_check_id_duplicate, pkt_check_id_ok, pkt_signup, pkt_signup_ok,
  pkt_signup_duplicate, pkt_signup_error, pkt_login, pkt_login_ok, pkt_login_no_account,
  pkt_login_wrong_pw, pkt_login_suspended, pkt_login_error, pkt_token, pkt_token_valid,
  pkt_invalid_token, pkt_edit_nick, pkt_nickname_edit_ok, pkt_nickname_edit_error,
  pkt_auth_error_unknown, packet, payload,
}
use codenames_cpp_vibecoding.Session.{
  World, Session, UserInfo, in_lobby, modify, post_send, set_token, set_nickname, set_user_info,
  set_logged_in, set_state,
}
use codenames_cpp_vibecoding.Database.{
  DatabaseResult, success, db_error, nick_duplicate, not_found, wrong_password, suspended, Sqlite,
  Db,
}
use codenames_cpp_vibecoding.Database.Secrets.{generate_token}
use codenames_cpp_vibecoding.Database.Queries.{check_id_exists, login_user, get_user_info_by_token}
use codenames_cpp_vibecoding.Database.Signup.{signup_user}

pub data AuthRequest : Type 0 where
  check_id : Bytes → AuthRequest
  signup : Bytes → Bytes → Bytes → AuthRequest
  bad_signup : AuthRequest
  login : Bytes → Bytes → AuthRequest
  bad_login : AuthRequest
  token : Bytes → AuthRequest
  edit_nick : Bytes → Bytes → AuthRequest
  bad_edit : AuthRequest
  unknown : AuthRequest

-- "id|password|nickname": the nickname is all that follows the second delimiter.
signup_fields : Bytes → AuthRequest
signup_fields rest = elim (split_at pipe rest) [
  | none ↦ bad_signup
  | some (id, behind) ↦ elim (split_at pipe behind) [
    | none ↦ bad_signup
    | some (pw, nick) ↦ signup id pw nick
  ]
]

login_fields : Bytes → AuthRequest
login_fields rest = elim (split_at pipe rest) [ none ↦ bad_login | some (id, pw) ↦ login id pw ]

edit_fields : Bytes → AuthRequest
edit_fields rest = elim (split_at pipe rest) [ none ↦ bad_edit | some (t, nick) ↦ edit_nick t nick ]

-- The tags are tried in this order.
unfoldable pub parse_auth : Bytes → AuthRequest
unfolding signup_fields login_fields edit_fields
parse_auth d = elim (payload pkt_check_id d) [
  | some id ↦ check_id id
  | none ↦ elim (payload pkt_signup d) [
    | some rest ↦ signup_fields rest
    | none ↦ elim (payload pkt_login d) [
      | some rest ↦ login_fields rest
      | none ↦ elim (payload pkt_token d) [
        | some t ↦ token t
        | none ↦ elim (payload pkt_edit_nick d) [ some rest ↦ edit_fields rest | none ↦ unknown ]
      ]
    ]
  ]
]

-- The answer to a failed login.
abbrev login_failure : DatabaseResult → Bytes
login_failure not_found = pkt_login_no_account
login_failure wrong_password = pkt_login_wrong_pw
login_failure suspended = pkt_login_suspended
login_failure _ = pkt_login_error

-- A login that the database accepted, with the user's record.
unfoldable pub admit : (ℕ → ℕ) → ℕ → UserInfo → World → World
admit draws p info w =
    let t = generate_token draws 32 in
    modify p (set_state in_lobby) (
      post_send p (packet pkt_login_ok (t ∷ [])) (
        modify p (set_nickname info.nickname) (
          modify p (set_token t)
            (modify p (set_logged_in true) (modify p (set_user_info info) w)))))

-- The end of a signup, for each result of the database.
unfoldable pub enrol : (ℕ → ℕ) → ℕ → Bytes → DatabaseResult → World → World
enrol draws p nick success w =
    let t = generate_token draws 32 in
    post_send p (packet pkt_signup_ok (t ∷ []))
      (modify p (set_nickname nick) (modify p (set_token t) w))
enrol draws p nick nick_duplicate w = post_send p pkt_signup_duplicate w
enrol draws p nick _ w = post_send p pkt_signup_error w

module _ (S : Sqlite) (hash : Bytes → ℕ) (salt_draws token_draws : ℕ → ℕ) where
  -- With the user's record at hand, or without.
  login_loaded : ℕ → Option UserInfo → World → World
  login_loaded p none w = post_send p pkt_login_error w
  login_loaded p (some info) w = admit token_draws p info w

  login_answer : ℕ → Bytes → DatabaseResult → World → Db S → Outcome (World × Db S)
  unfolding login_loaded
  login_answer p id success w d =
      get_user_info_by_token S false id d >>= λ r. returned (login_loaded p r.0 w, r.1)
  login_answer p id failure w d = returned (post_send p (login_failure failure) w, d)

  -- One request of the session `p`, with the mutex of the database free.
  unfoldable pub handle_auth_request : ℕ → AuthRequest → World → Db S → Outcome (World × Db S)
  unfolding login_answer
  handle_auth_request p (check_id id) w d = check_id_exists S false id d >>= λ r.
      returned (post_send p (if r.0 then pkt_check_id_duplicate else pkt_check_id_ok) w, r.1)
  handle_auth_request p (signup id pw nick) w d =
      signup_user S hash salt_draws false id pw nick d >>= λ r.
      returned (enrol token_draws p nick r.0 w, r.1)
  handle_auth_request p bad_signup w d = returned (post_send p pkt_signup_error w, d)
  handle_auth_request p (login id pw) w d =
      login_user S hash false id pw d >>= λ r. login_answer p id r.0 w r.1
  handle_auth_request p bad_login w d = returned (post_send p pkt_login_error w, d)
  handle_auth_request p (token t) w d = returned (
    if bytes_eq t (w.sessions p).token
        then post_send p (packet pkt_token_valid ((w.sessions p).username ∷ [])) w
        else post_send p pkt_invalid_token w,
    d,
  )
  handle_auth_request p (edit_nick t nick) w d = returned (
    if bytes_eq t (w.sessions p).token
        then post_send p pkt_nickname_edit_ok (modify p (set_nickname nick) w)
        else post_send p pkt_invalid_token w,
    d,
  )
  handle_auth_request p bad_edit w d = returned (post_send p pkt_nickname_edit_error w, d)
  handle_auth_request p unknown w d = returned (post_send p pkt_auth_error_unknown w, d)

  unfoldable pub handle_auth_protocol : ℕ → Bytes → World → Db S → Outcome (World × Db S)
  handle_auth_protocol p content w d = handle_auth_request p (parse_auth content) w d
