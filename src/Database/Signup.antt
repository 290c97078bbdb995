-- ===== src/Database/Signup.antt =====
-- DatabaseManager::SignupUser: one transaction, rolled back on every error after it has begun.
use codenames_cpp_vibecoding.Prelude.{ℕ, Bool, List, [], ◌∷◌, if◌then◌else◌}
use codenames_cpp_vibecoding.Outcome.{Outcome, returned, locking}
use codenames_cpp_vibecoding.Text.{Bytes, text}
use codenames_cpp_vibecoding.Database.{
  DatabaseResult, success, db_error, nick_duplicate, row, done, failed, Sqlite, Db, prepare, step,
  exec, c_str,
}
use codenames_cpp_vibecoding.Database.Updates.{is_done}
use codenames_cpp_vibecoding.Database.Secrets.{generate_salt, hash_password_with_salt}

abbrev pub sql_begin : Bytes
sql_begin = text "BEGIN TRANSACTION;"

abbrev pub sql_rollback : Bytes
sql_rollback = text "ROLLBACK;"

abbrev pub sql_commit : Bytes
sql_commit = text "COMMIT;"

abbrev pub sql_taken : Bytes
sql_taken = text "SELECT id FROM users WHERE id = ? OR nickname = ?"

abbrev pub sql_insert_user : Bytes
sql_insert_user =
    text
      "INSERT INTO users(id, pw, salt, nickname, report_count, is_suspended) VALUES (?, ?, ?, ?, 0, 0)"

abbrev pub sql_insert_stats : Bytes
sql_insert_stats = text "INSERT OR IGNORE INTO game_stats (user_id, wins, losses) VALUES (?, 0, 0)"

module _ (S : Sqlite) where
  -- `ROLLBACK;`, whatever it returns.
  unfoldable pub give_up : DatabaseResult → Db S → DatabaseResult × Db S
  give_up r d = (r, (exec S sql_rollback d).1)

  unfoldable pub commit : Db S → DatabaseResult × Db S
  unfolding give_up
  commit d = let (ok, d') = exec S sql_commit d in if ok then (success, d') else give_up db_error d'

  -- Prepare and step one insertion; go on if it is done.
  unfoldable pub insert_then :
      Bytes → List Bytes → (Db S → DatabaseResult × Db S) → Db S → DatabaseResult × Db S
  unfolding give_up
  insert_then sql binds next d =
      if prepare S sql d
      then (let (s, d') = step S sql binds d in if is_done s then next d' else give_up db_error d')
      else give_up db_error d

  -- The duplicate check, and what follows when nobody has the id or the nickname. A failing step
  -- counts as no row.
  unfoldable pub check_then :
      Bytes → Bytes → (Db S → DatabaseResult × Db S) → Db S → DatabaseResult × Db S
  unfolding give_up
  check_then id nickname next d =
      if prepare S sql_taken d
      then (let (s, d') = step S sql_taken (c_str id ∷ c_str nickname ∷ []) d in
          elim s [ row r ↦ give_up nick_duplicate d' | done ↦ next d' | failed ↦ next d' ])
      else give_up db_error d

  -- What is done with the mutex held.
  unfoldable pub register :
      (Bytes → ℕ) → (ℕ → ℕ) → Bytes → Bytes → Bytes → Db S → DatabaseResult × Db S
  register hash draws id pw nickname d =
      if d.opened
      then (let (begun, d1) = exec S sql_begin d in
          let salt = generate_salt draws in
          let hashed = hash_password_with_salt hash pw salt in
          if begun
          then check_then id nickname
              (insert_then sql_insert_user
                (c_str id ∷ c_str hashed ∷ c_str salt ∷ c_str nickname ∷ [])
                (insert_then sql_insert_stats (c_str id ∷ []) commit))
              d1
          else (db_error, d1))
      else (db_error, d)

  unfoldable pub signup_user :
      (Bytes → ℕ) → (ℕ → ℕ) → Bool → Bytes → Bytes → Bytes → Db S → Outcome (DatabaseResult × Db S)
  signup_user hash draws held id pw nickname d =
      locking held (returned (register hash draws id pw nickname d))
