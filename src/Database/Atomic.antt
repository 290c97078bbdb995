-- ===== src/Database/Atomic.antt =====
-- A signup happens as a whole or not at all.
use codenames_cpp_vibecoding.Prelude.{
  ℕ, ◌≡◌, ◌≢◌, refl, ◌∙◌, true, false, List, [], ◌∷◌, Bool-cases, inl, inr, ◌⊎◌,
}
use codenames_cpp_vibecoding.Outcome.{returned}
use codenames_cpp_vibecoding.Text.{Bytes}
use codenames_cpp_vibecoding.Database.{
  DatabaseResult, success, Value, Step, row, done, failed, Sqlite, Db, prepare, c_str,
}
use codenames_cpp_vibecoding.Database.Updates.{is_done}
use codenames_cpp_vibecoding.Database.Signup.{
  sql_begin, sql_commit, sql_rollback, sql_taken, commit, insert_then, check_then, register,
  signup_user,
}
use codenames_cpp_vibecoding.Database.Laws.{Inside, checks, inserts_user, inserts_stats, Laws}

Step-cases : (s : Step) → ((r : _) × (s ≡ row r)) ⊎ ((s ≡ done) ⊎ (s ≡ failed))
Step-cases (row r) = inl (r, refl)
Step-cases done = inr (inl refl)
Step-cases failed = inr (inr refl)

row-ne-failed : (s : Step) (r : List Value) → s ≡ row r → s ≢ failed
row-ne-failed s r e f = cc

done-ne-failed : (s : Step) → s ≡ done → s ≢ failed
done-ne-failed s e f = cc

is_done-done : (s : Step) → is_done s ≡ true → s ≡ done
is_done-done done e = refl
is_done-done (row r) e = cc
is_done-done failed e = cc

module _ (S : Sqlite) (laws : Laws S) where
  open laws use {
    Content, content, Pending, Idle, begins, refused_begin, stays_pending, fails, refused_commit,
    rolls_back, idle_rollback,
  }

  -- Without SUCCESS the content is `t`.
  abbrev Keeps : Content → DatabaseResult × Db S → Type 0
  Keeps t x = x.0 ≢ success → content x.1.conn ≡ t

  -- With a transaction open since `t`.
  abbrev KeepsFrom : Content → (Db S → DatabaseResult × Db S) → Type 0
  KeepsFrom t next = (d : Db S) → Pending t d.conn → Keeps t (next d)

  -- Still open since `t`, or rolled back to `t`.
  abbrev Undoable : Content → S.Conn → Type 0
  Undoable t c = Pending t c ⊎ (Idle c × (content c ≡ t))

  undone : (t : Content) (c : S.Conn) → Undoable t c → content (S.exec sql_rollback c).1 ≡ t
  undone t c (inl p) = rolls_back c t p
  undone t c (inr (i, e)) = idle_rollback c i ∙ e

  -- However a statement of the transaction ends, it can be undone.
  step-Undoable :
      (sql : Bytes) (binds : List Bytes) (c : S.Conn) (t : Content)
      → Inside sql
      → Pending t c
      → Undoable t (S.step sql binds c).1
  step-Undoable sql binds c t i p = elim (Step-cases (S.step sql binds c).0) [
    | inl (r, e) ↦ inl (stays_pending sql binds c t i p (row-ne-failed _ r e))
    | inr (inl e) ↦ inl (stays_pending sql binds c t i p (done-ne-failed _ e))
    | inr (inr e) ↦ fails sql binds c t i p e
  ]

  commit-Keeps : (t : Content) → KeepsFrom t (commit S)
  unfolding commit
  commit-Keeps t d p = elim (Bool-cases (S.exec sql_commit d.conn).0) [
    | inl e ↦ rw e (λ h. absurd (h refl))
    | inr e ↦ rw e (λ h. undone t _ (refused_commit d.conn t p e))
  ]

  insert_then-Keeps :
      (t : Content) (sql : Bytes) (binds : List Bytes) (next : Db S → DatabaseResult × Db S)
      → Inside sql
      → KeepsFrom t next
      → KeepsFrom t (insert_then S sql binds next)
  unfolding insert_then
  insert_then-Keeps t sql binds next i k d p = elim (Bool-cases (prepare S sql d)) [
    | inl e ↦ rw e (elim (Bool-cases (is_done (S.step sql binds d.conn).0)) [
      | inl f ↦
          rw f (k _ (stays_pending sql binds d.conn t i p (done-ne-failed _ (is_done-done _ f))))
      | inr f ↦ rw f (λ h. undone t _ (step-Undoable sql binds d.conn t i p))
    ])
    | inr e ↦ rw e (λ h. rolls_back d.conn t p)
  ]

  check_then-Keeps :
      (t : Content) (id nickname : Bytes) (next : Db S → DatabaseResult × Db S) (d : Db S)
      → KeepsFrom t next
      → Pending t d.conn
      → (S.step sql_taken (c_str id ∷ c_str nickname ∷ []) d.conn).0 ≢ failed
      → Keeps t (check_then S id nickname next d)
  unfolding check_then
  check_then-Keeps t id nickname next d k p answered =
      let binds : List Bytes = c_str id ∷ c_str nickname ∷ [] in
      let q = stays_pending sql_taken binds d.conn t checks p answered in
      elim (Bool-cases (prepare S sql_taken d)) [
        | inl e ↦ rw e (elim (Step-cases (S.step sql_taken binds d.conn).0) [
          | inl (r, f) ↦ rw f (λ h. rolls_back _ t q)
          | inr (inl f) ↦ rw f (k _ q)
          | inr (inr f) ↦ absurd (answered f)
        ])
        | inr e ↦ rw e (λ h. rolls_back d.conn t p)
      ]

  register-Keeps :
      (hash : Bytes → ℕ) (draws : ℕ → ℕ) (id pw nickname : Bytes) (d : Db S)
      → (S.step sql_taken (c_str id ∷ c_str nickname ∷ []) (S.exec sql_begin d.conn).1).0 ≢ failed
      → Keeps (content d.conn) (register S hash draws id pw nickname d)
  unfolding register
  register-Keeps hash draws id pw nickname d answered = elim (Bool-cases d.opened) [
    | inl e ↦ rw e (elim (Bool-cases (S.exec sql_begin d.conn).0) [
      | inl f ↦ rw f (
          check_then-Keeps _ id nickname _ _
            (insert_then-Keeps _ _ _ _ inserts_user
              (insert_then-Keeps _ _ _ _ inserts_stats (commit-Keeps _)))
            (begins d.conn f) answered)
      | inr f ↦ rw f (λ h. refused_begin d.conn f)
    ])
    | inr e ↦ rw e (λ h. refl)
  ]

  -- If SQLite keeps the laws of transactions, the mutex is free and the query for duplicates behind
  -- BEGIN does not fail, SignupUser returns; and unless it returns SUCCESS, the content of the
  -- database is what it was before the call, also where an error has made SQLite roll the transaction
  -- back by itself.
  pub signup_user_atomic :
      (hash : Bytes → ℕ) (draws : ℕ → ℕ) (id pw nickname : Bytes) (d : Db S)
      → (S.step sql_taken (c_str id ∷ c_str nickname ∷ []) (S.exec sql_begin d.conn).1).0 ≢ failed
      → (x : DatabaseResult × Db S) × (signup_user S hash draws false id pw nickname d ≡ returned x)
        × (x.0 ≢ success → content x.1.conn ≡ content d.conn)
  unfolding signup_user
  signup_user_atomic hash draws id pw nickname d answered = (
    register S hash draws id pw nickname d,
    refl,
    register-Keeps hash draws id pw nickname d answered,
  )
