-- ===== src/Database/Queries.antt =====
-- The read-only calls of DatabaseManager.cpp: CheckNicknameExists, CheckIdExists, LoginUser,
-- GetUserInfoByToken, IsAccountSuspended, GetReportCount and GetNicknameByToken.
pub mod Returns
use codenames_cpp_vibecoding.Prelude.{
  ℕ, ◌==◌, Bool, true, false, not, List, [], ◌∷◌, ◌++◌, Option, none, some, if◌then◌else◌, ℤ, pos,
  negsuc, is_nonpos,
}
use codenames_cpp_vibecoding.Outcome.{Outcome, returned, locking, string_of, ◌>>=◌}
use codenames_cpp_vibecoding.Text.{Bytes, text, bytes_eq}
use codenames_cpp_vibecoding.Session.{UserInfo}
use codenames_cpp_vibecoding.Database.{
  DatabaseResult, success, db_error, not_found, wrong_password, suspended, Value, Step, row, done,
  failed, Sqlite, Db, prepare, step, c_str, column_text, column_int,
}
use codenames_cpp_vibecoding.Database.Secrets.{hash_password_with_salt}

abbrev is_row : Step → Bool
is_row (row r) = true
is_row _ = false

-- n != 0
abbrev is_nonzero : ℤ → Bool
is_nonzero (pos n) = not (n == 0)
is_nonzero (negsuc n) = true

-- n == 1
abbrev is_one : ℤ → Bool
is_one (pos n) = n == 1
is_one (negsuc n) = false

abbrev pub sql_check_nickname : Bytes
sql_check_nickname = text "SELECT nickname FROM users WHERE nickname = ?"

abbrev pub sql_login : Bytes
sql_login = text "SELECT pw, salt, is_suspended FROM users WHERE id = ?"

abbrev pub sql_user_info : Bytes
sql_user_info =
    text "\n        SELECT u.id, u.nickname, u.report_count, u.is_suspended, \n"
    ++ (text "               COALESCE(g.wins, 0) as wins, COALESCE(g.losses, 0) as losses\n"
        ++ (text "        FROM users u \n        LEFT JOIN game_stats g ON u.id = g.user_id \n"
            ++ text "        WHERE u.id = ?\n    "))

abbrev pub sql_is_suspended : Bytes
sql_is_suspended = text "SELECT is_suspended FROM users WHERE id = ?"

abbrev pub sql_report_count : Bytes
sql_report_count = text "SELECT report_count FROM users WHERE id = ?"

abbrev pub sql_nickname : Bytes
sql_nickname = text "SELECT nickname FROM users WHERE id = ?"

abbrev pub sql_check_id : Bytes
sql_check_id = text "SELECT COUNT(*) FROM users WHERE id = ?"

module _ (S : Sqlite) where
  -- Each call has the mutex first: `held` if this thread has it already.
  unfoldable pub check_nickname_exists : Bool → Bytes → Db S → Outcome (Bool × Db S)
  check_nickname_exists held nickname d = locking held (
      if prepare S sql_check_nickname d
      then (let (s, d') = step S sql_check_nickname (c_str nickname ∷ []) d in
          returned (is_row s, d'))
      else returned (false, d))

  positive_count : Step → Bool
  positive_count (row r) = not (is_nonpos (column_int 0 r))
  positive_count _ = false

  unfoldable pub check_id_exists : Bool → Bytes → Db S → Outcome (Bool × Db S)
  unfolding positive_count
  check_id_exists held id d = locking held (
      if prepare S sql_check_id d
      then (let (s, d') = step S sql_check_id (c_str id ∷ []) d in returned (positive_count s, d'))
      else returned (false, d))

  -- The stored password, the salt and the flag, as the row gives them.
  unfoldable pub judge_login :
      (Bytes → ℕ) → Bytes → Option Bytes → Option Bytes → ℤ → Outcome DatabaseResult
  judge_login hash pw stored salt flag = do
    stored_pw ← string_of stored
    salt_text ← string_of salt
    returned (
        if is_nonzero flag
        then suspended
        else if not (bytes_eq (hash_password_with_salt hash pw salt_text) stored_pw)
        then wrong_password
        else success)

  login_step : (Bytes → ℕ) → Bytes → Step → Outcome DatabaseResult
  unfolding judge_login
  login_step hash pw (row r) =
      judge_login hash pw (column_text 0 r) (column_text 1 r) (column_int 2 r)
  login_step hash pw _ = returned not_found

  unfoldable pub login_user :
      (Bytes → ℕ) → Bool → Bytes → Bytes → Db S → Outcome (DatabaseResult × Db S)
  unfolding login_step
  login_user hash held id pw d = locking held (
      if prepare S sql_login d
      then (let (s, d') = step S sql_login (c_str id ∷ []) d in
          login_step hash pw s >>= λ r. returned (r, d'))
      else returned (db_error, d))

  read_info : List Value → Option Bytes → Option Bytes → Outcome (Option UserInfo)
  read_info r id_column nickname_column = do
    id ← string_of id_column
    nickname ← string_of nickname_column
    returned (
        some (record {
          id = id;
          nickname = nickname;
          wins = column_int 4 r;
          losses = column_int 5 r;
          report_count = column_int 2 r;
          is_suspended = is_nonzero (column_int 3 r);
        }))

  info_of : Step → Outcome (Option UserInfo)
  unfolding read_info
  info_of (row r) = read_info r (column_text 0 r) (column_text 1 r)
  info_of _ = returned none

  unfoldable pub get_user_info_by_token : Bool → Bytes → Db S → Outcome (Option UserInfo × Db S)
  unfolding info_of
  get_user_info_by_token held id d = locking held (
      if prepare S sql_user_info d
      then (let (s, d') = step S sql_user_info (c_str id ∷ []) d in
          info_of s >>= λ r. returned (r, d'))
      else returned (none, d))

  suspended_flag : Step → Bool
  suspended_flag (row r) = is_one (column_int 0 r)
  suspended_flag _ = false

  unfoldable pub is_account_suspended : Bool → Bytes → Db S → Outcome (Bool × Db S)
  unfolding suspended_flag
  is_account_suspended held id d = locking held (
      if prepare S sql_is_suspended d
      then (let (s, d') = step S sql_is_suspended (c_str id ∷ []) d in
          returned (suspended_flag s, d'))
      else returned (false, d))

  count_of : Step → ℤ
  count_of (row r) = column_int 0 r
  count_of _ = pos 0

  unfoldable pub get_report_count : Bool → Bytes → Db S → Outcome (ℤ × Db S)
  unfolding count_of
  get_report_count held id d = locking held (
      if prepare S sql_report_count d
      then (let (s, d') = step S sql_report_count (c_str id ∷ []) d in returned (count_of s, d'))
      else returned (negsuc 0, d))

  abbrev or_empty : Option Bytes → Bytes
  or_empty none = []
  or_empty (some t) = t

  nickname_of : Step → Bytes
  nickname_of (row r) = or_empty (column_text 0 r)
  nickname_of _ = []

  unfoldable pub get_nickname_by_token : Bool → Bytes → Db S → Outcome (Bytes × Db S)
  unfolding nickname_of
  get_nickname_by_token held token d = locking held (
      if prepare S sql_nickname d
      then (let (s, d') = step S sql_nickname (c_str token ∷ []) d in returned (nickname_of s, d'))
      else returned ([], d))
