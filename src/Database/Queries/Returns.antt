-- ===== src/Database/Queries/Returns.antt =====
-- With the mutex free the queries come back, or die on a null column.
use codenames_cpp_vibecoding.Prelude.{
  ℕ, false, List, [], ◌∷◌, Option, none, some, Bool-cases, inl, inr, ℤ,
}
use codenames_cpp_vibecoding.Outcome.{Answers, Answers-bind, Anything}
use codenames_cpp_vibecoding.Text.{Bytes}
use codenames_cpp_vibecoding.Database.{
  Value, Step, row, done, failed, Sqlite, Db, prepare, c_str, column_text, column_int,
}
use codenames_cpp_vibecoding.Database.Queries.{
  check_id_exists, judge_login, login_step, login_user, read_info, info_of, get_user_info_by_token,
  sql_login, sql_check_id, sql_user_info,
}

module _ (S : Sqlite) where
  pub check_id_exists-Answers :
      (id : Bytes) (d : Db S) → Answers Anything (check_id_exists S false id d)
  unfolding check_id_exists
  check_id_exists-Answers id d = elim (Bool-cases (prepare S sql_check_id d)) [
    | inl e ↦ rw e tt
    | inr e ↦ rw e tt
  ]

  judge_login-Answers :
      (hash : Bytes → ℕ) (pw : Bytes) (a b : Option Bytes) (n : ℤ)
      → Answers Anything (judge_login S hash pw a b n)
  unfolding judge_login
  judge_login-Answers hash pw none b n = tt
  judge_login-Answers hash pw (some a) none n = tt
  judge_login-Answers hash pw (some a) (some b) n = tt

  login_step-Answers :
      (hash : Bytes → ℕ) (pw : Bytes) (s : Step) → Answers Anything (login_step S hash pw s)
  unfolding login_step
  login_step-Answers hash pw (row r) =
      judge_login-Answers hash pw (column_text 0 r) (column_text 1 r) (column_int 2 r)
  login_step-Answers hash pw done = tt
  login_step-Answers hash pw failed = tt

  pub login_user-Answers :
      (hash : Bytes → ℕ) (id pw : Bytes) (d : Db S)
      → Answers Anything (login_user S hash false id pw d)
  unfolding login_user
  login_user-Answers hash id pw d = elim (Bool-cases (prepare S sql_login d)) [
    | inl e ↦
        let s = (S.step sql_login (c_str id ∷ []) d.conn).0 in
        rw e (
          Answers-bind Anything Anything (login_step S hash pw s) _ (login_step-Answers hash pw s)
            (λ a q. tt))
    | inr e ↦ rw e tt
  ]

  read_info-Answers : (r : List Value) (a b : Option Bytes) → Answers Anything (read_info S r a b)
  unfolding read_info
  read_info-Answers r none b = tt
  read_info-Answers r (some a) none = tt
  read_info-Answers r (some a) (some b) = tt

  info_of-Answers : (s : Step) → Answers Anything (info_of S s)
  unfolding info_of
  info_of-Answers (row r) = read_info-Answers r (column_text 0 r) (column_text 1 r)
  info_of-Answers done = tt
  info_of-Answers failed = tt

  pub get_user_info_by_token-Answers :
      (id : Bytes) (d : Db S) → Answers Anything (get_user_info_by_token S false id d)
  unfolding get_user_info_by_token
  get_user_info_by_token-Answers id d = elim (Bool-cases (prepare S sql_user_info d)) [
    | inl e ↦
        let s = (S.step sql_user_info (c_str id ∷ []) d.conn).0 in
        rw e (Answers-bind Anything Anything (info_of S s) _ (info_of-Answers s) (λ a q. tt))
    | inr e ↦ rw e tt
  ]
