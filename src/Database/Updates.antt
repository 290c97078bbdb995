-- ===== src/Database/Updates.antt =====
-- The writing calls of DatabaseManager.cpp but SignupUser: Initialize, ChangePassword,
-- ChangeNickname, WithdrawUser, ReportUser, SuspendUser and SaveGameResult.
use codenames_cpp_vibecoding.Prelude.{
  ℕ, Bool, true, false, not, ◌&&◌, List, [], ◌∷◌, ◌++◌, Option, none, some, if◌then◌else◌, ltb, ℤ,
  pos, negsuc, is_nonpos, leb,
}
use codenames_cpp_vibecoding.Outcome.{Outcome, returned, locking, ◌>>=◌}
use codenames_cpp_vibecoding.Text.{Bytes, text, bytes_eq, is_empty}
use codenames_cpp_vibecoding.Database.{
  DatabaseResult, success, db_error, nick_duplicate, not_found, Step, row, done, Sqlite, Db,
  prepare, step, exec, changes, c_str, column_text, column_int,
}
use codenames_cpp_vibecoding.Database.Secrets.{generate_salt, hash_password_with_salt}
use codenames_cpp_vibecoding.Database.Queries.{get_report_count}

abbrev pub is_done : Step → Bool
is_done done = true
is_done _ = false

abbrev pub sql_create_stats : Bytes
sql_create_stats =
    text "CREATE TABLE IF NOT EXISTS game_stats (user_id TEXT PRIMARY KEY,wins INTEGER DEFAULT 0,"
    ++ text "losses INTEGER DEFAULT 0,FOREIGN KEY(user_id) REFERENCES users(id))"

abbrev pub sql_change_password : Bytes
sql_change_password = text "UPDATE users SET password = ?, salt = ? WHERE id = ?"

abbrev pub sql_taken_nickname : Bytes
sql_taken_nickname = text "SELECT COUNT(*) FROM users WHERE nickname = ? AND id != ?"

abbrev pub sql_change_nickname : Bytes
sql_change_nickname = text "UPDATE users SET nickname = ? WHERE id = ?"

abbrev pub sql_withdraw : Bytes
sql_withdraw = text "DELETE FROM users WHERE id = ?"

abbrev pub sql_report : Bytes
sql_report = text "UPDATE users SET report_count = report_count + 1 WHERE id = ?"

abbrev pub sql_suspend : Bytes
sql_suspend = text "UPDATE users SET is_suspended = 1 WHERE id = ?"

abbrev pub sql_user_id : Bytes
sql_user_id = text "SELECT id FROM users WHERE nickname = ?"

abbrev pub sql_add_win : Bytes
sql_add_win =
    text "INSERT INTO game_stats(user_id, wins, losses) VALUES(?, 1, 0) "
    ++ text "ON CONFLICT(user_id) DO UPDATE SET wins = wins + 1"

abbrev pub sql_add_loss : Bytes
sql_add_loss =
    text "INSERT INTO game_stats(user_id, wins, losses) VALUES(?, 0, 1) "
    ++ text "ON CONFLICT(user_id) DO UPDATE SET losses = losses + 1"

module _ (S : Sqlite) where
  -- `open_db` is sqlite3_open: whether it succeeds, and the connection. The table is created if it
  -- is not there; a failure of that is only logged.
  unfoldable pub initialize : Bool → Bool × S.Conn → Db S → Outcome (Bool × Db S)
  initialize held (ok, c) d = locking held (
      if ok
      then returned (true, (exec S sql_create_stats (record { opened = true; conn = c })).1)
      else returned (false, record { opened = true; conn = c }))

  -- The common end of the updates: SUCCESS if the statement ran and changed a row.
  updated : Step → Db S → DatabaseResult
  updated s d = if is_done s && ltb 0 (changes S d) then success else not_found

  -- Prepare, bind, step: what WithdrawUser and SuspendUser do, and the second half of the others.
  unfoldable pub run_update : Bytes → List Bytes → Db S → DatabaseResult × Db S
  unfolding updated
  run_update sql binds d =
      if prepare S sql d
      then (let (s, d') = step S sql binds d in (updated s d', d'))
      else (db_error, d)

  unfoldable pub change_password :
      (Bytes → ℕ) → (ℕ → ℕ) → Bool → Bytes → Bytes → Db S → Outcome (DatabaseResult × Db S)
  change_password hash draws held id password d = locking held (
      let salt = generate_salt draws in
      let hashed = hash_password_with_salt hash password salt in
      returned (run_update sql_change_password (c_str hashed ∷ c_str salt ∷ c_str id ∷ []) d))

  taken : Step → Bool
  taken (row r) = not (is_nonpos (column_int 0 r))
  taken _ = false

  unfoldable pub change_nickname : Bool → Bytes → Bytes → Db S → Outcome (DatabaseResult × Db S)
  unfolding taken
  change_nickname held id nickname d = locking held (
      if prepare S sql_taken_nickname d
      then (let (s, d') = step S sql_taken_nickname (c_str nickname ∷ c_str id ∷ []) d in
          if taken s
          then returned (nick_duplicate, d')
          else returned (run_update sql_change_nickname (c_str nickname ∷ c_str id ∷ []) d'))
      else returned (db_error, d))

  unfoldable pub withdraw_user : Bool → Bytes → Db S → Outcome (DatabaseResult × Db S)
  withdraw_user held id d = locking held (returned (run_update sql_withdraw (c_str id ∷ []) d))

  unfoldable pub suspend_user : Bool → Bytes → Db S → Outcome (DatabaseResult × Db S)
  suspend_user held id d = locking held (returned (run_update sql_suspend (c_str id ∷ []) d))

  -- `reportCount >= 5`
  at_limit : ℤ → Bool
  at_limit (pos n) = leb 5 n
  at_limit (negsuc n) = false

  -- The calls of GetReportCount and SuspendUser are made with the mutex held.
  count_report : Bytes → Db S → Outcome (DatabaseResult × Db S)
  count_report id d = get_report_count S true id d >>= λ r.
      if at_limit r.0
      then (suspend_user true id r.1 >>= λ s. returned (success, s.1))
      else returned (success, r.1)

  unfoldable pub report_user : Bool → Bytes → Db S → Outcome (DatabaseResult × Db S)
  unfolding count_report at_limit
  report_user held id d = locking held (
      if prepare S sql_report d
      then (let (s, d') = step S sql_report (c_str id ∷ []) d in
          if is_done s && ltb 0 (changes S d')
          then count_report id d'
          else returned (not_found, d'))
      else returned (db_error, d))

  abbrev id_text : Option Bytes → Bytes
  id_text none = []
  id_text (some t) = t

  found_id : Step → Bytes
  found_id (row r) = id_text (column_text 0 r)
  found_id _ = []

  -- The statement for "WIN" or "LOSS"; any other result is refused.
  abbrev pub result_sql : Bytes → Option Bytes
  result_sql result =
      if bytes_eq result (text "WIN")
      then some sql_add_win
      else if bytes_eq result (text "LOSS")
      then some sql_add_loss
      else none

  add_result : Bytes → Option Bytes → Db S → DatabaseResult × Db S
  add_result user_id none d = (db_error, d)
  add_result user_id (some sql) d =
      if prepare S sql d
      then (let (s, d') = step S sql (c_str user_id ∷ []) d in
          (if is_done s then success else db_error, d'))
      else (db_error, d)

  unfoldable pub save_game_result : Bool → Bytes → Bytes → Db S → Outcome (DatabaseResult × Db S)
  unfolding found_id add_result
  save_game_result held nickname result d = locking held (
      if prepare S sql_user_id d
      then (let (s, d') = step S sql_user_id (c_str nickname ∷ []) d in
          let user_id = found_id s in
          if is_empty user_id
          then returned (not_found, d')
          else returned (add_result user_id (result_sql result) d'))
      else returned (db_error, d))
