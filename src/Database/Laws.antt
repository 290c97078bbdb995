-- ===== src/Database/Laws.antt =====
-- What the atomicity of a signup relies on in SQLite: the documented behaviour of BEGIN, COMMIT and
-- ROLLBACK, over an abstract content of the database file. A statement or a COMMIT that fails may
-- roll the transaction back by itself (SQLITE_FULL, SQLITE_IOERR, SQLITE_NOMEM, SQLITE_BUSY,
-- SQLITE_INTERRUPT); the connection is in autocommit mode then, where ROLLBACK is refused.
use codenames_cpp_vibecoding.Prelude.{◌≡◌, ◌≢◌, ◌⊎◌, true, false, List}
use codenames_cpp_vibecoding.Text.{Bytes}
use codenames_cpp_vibecoding.Database.{failed, Sqlite}
use codenames_cpp_vibecoding.Database.Signup.{
  sql_begin, sql_commit, sql_rollback, sql_taken, sql_insert_user, sql_insert_stats,
}

-- The statements that are stepped inside the transaction; none of them ends it.
pub data Inside : Bytes → Type 0 where
  checks : Inside sql_taken
  inserts_user : Inside sql_insert_user
  inserts_stats : Inside sql_insert_stats

-- `Pending t c`: a transaction is open on `c` that began when the content was `t`. `Idle c`: no
-- transaction is open on `c`.
pub record Laws (S : Sqlite) : Type 1 where
  pub Content : Type 0
  pub content : S.Conn → Content
  pub Pending : Content → S.Conn → Type 0
  pub Idle : S.Conn → Type 0
  pub begins :
      (c : S.Conn) → (S.exec sql_begin c).0 ≡ true → Pending (content c) (S.exec sql_begin c).1
  pub refused_begin :
      (c : S.Conn) → (S.exec sql_begin c).0 ≡ false → content (S.exec sql_begin c).1 ≡ content c
  pub stays_pending :
      (sql : Bytes) (binds : List Bytes) (c : S.Conn) (t : Content)
      → Inside sql
      → Pending t c
      → (S.step sql binds c).0 ≢ failed
      → Pending t (S.step sql binds c).1
  pub fails :
      (sql : Bytes) (binds : List Bytes) (c : S.Conn) (t : Content)
      → Inside sql
      → Pending t c
      → (S.step sql binds c).0 ≡ failed
      → Pending t (S.step sql binds c).1
        ⊎ (Idle (S.step sql binds c).1 × (content (S.step sql binds c).1 ≡ t))
  pub refused_commit :
      (c : S.Conn) (t : Content)
      → Pending t c
      → (S.exec sql_commit c).0 ≡ false
      → Pending t (S.exec sql_commit c).1
        ⊎ (Idle (S.exec sql_commit c).1 × (content (S.exec sql_commit c).1 ≡ t))
  pub rolls_back : (c : S.Conn) (t : Content) → Pending t c → content (S.exec sql_rollback c).1 ≡ t
  pub idle_rollback : (c : S.Conn) → Idle c → content (S.exec sql_rollback c).1 ≡ content c
