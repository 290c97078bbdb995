-- ===== src/Database.antt =====
-- CodeNamesServer/src/DatabaseManager.cpp over SQLite, which is no part of the repository: its calls
-- are the record `Sqlite` below, and what the program relies on is stated in Database/Laws.antt.
-- std::hash and the random draws are arguments too.
pub mod Secrets
pub mod Queries
pub mod Updates
pub mod Signup
pub mod Laws
pub mod Atomic
use codenames_cpp_vibecoding.Prelude.{
  ℕ, ◌==◌, Bool, true, false, ◌&&◌, List, [], ◌∷◌, Option, none, some, if◌then◌else◌, get_elem?, ℤ,
  pos,
}
use codenames_cpp_vibecoding.Text.{Bytes}

pub data DatabaseResult : Type 0 where
  success db_error nick_duplicate not_found wrong_password suspended : DatabaseResult

pub data Value : Type 0 where
  null_value : Value
  text_value : Bytes → Value
  int_value : ℤ → Value

-- What sqlite3_step returns: SQLITE_ROW, SQLITE_DONE, or an error code.
pub data Step : Type 0 where
  row : List Value → Step
  done : Step
  failed : Step

-- sqlite3_exec, sqlite3_prepare_v2 (true for SQLITE_OK), the first sqlite3_step of a statement with
-- its bound texts, and sqlite3_changes.
pub record Sqlite : Type 1 where
  pub Conn : Type 0
  pub exec : Bytes → Conn → Bool × Conn
  pub prepare : Bytes → Conn → Bool
  pub step : Bytes → List Bytes → Conn → Step × Conn
  pub changes : Conn → ℕ

-- `text, -1` in sqlite3_bind_text: the text up to its first zero byte.
unfoldable pub c_str : Bytes → Bytes
c_str [] = []
c_str (c ∷ s) = let rest = c_str s in if c == 0 then [] else c ∷ rest

-- sqlite3_column_text: null for NULL or beyond the row.
abbrev text_of : Option Value → Option Bytes
text_of (some (text_value t)) = some t
text_of _ = none

unfoldable pub column_text : ℕ → List Value → Option Bytes
column_text i vs = text_of (get_elem? vs i)

-- sqlite3_column_int: 0 for NULL.
abbrev int_of : Option Value → ℤ
int_of (some (int_value n)) = n
int_of _ = pos 0

unfoldable pub column_int : ℕ → List Value → ℤ
column_int i vs = int_of (get_elem? vs i)

-- The members db_ (open or null) and the connection behind it.
pub record Db (S : Sqlite) : Type 0 where
  pub opened : Bool
  pub conn : S.Conn

module _ (S : Sqlite) where
  -- A null handle is refused with SQLITE_MISUSE.
  abbrev pub prepare : Bytes → Db S → Bool
  prepare sql d = d.opened && S.prepare sql d.conn

  abbrev pub step : Bytes → List Bytes → Db S → Step × Db S
  step sql binds d = let (s, c) = S.step sql binds d.conn in (s, record d { conn = c })

  abbrev pub exec : Bytes → Db S → Bool × Db S
  exec sql d = let (ok, c) = S.exec sql d.conn in (ok, record d { conn = c })

  abbrev pub changes : Db S → ℕ
  changes d = S.changes d.conn
