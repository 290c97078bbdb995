-- ===== src/Tests/Storage.antt =====
-- A small database in memory that has the documented behaviour, and the theorems on the
-- transactions, logins and secrets at it.
use codenames_cpp_vibecoding.Prelude.{
  ℕ, ◌+◌, ◌≡◌, ◌≢◌, refl, arith, Bool, true, false, List, [], ◌∷◌, ◌++◌, Option, none, some, length,
  if◌then◌else◌, inl,
}
use codenames_cpp_vibecoding.Outcome.{returned, Answers}
use codenames_cpp_vibecoding.Text.{Bytes, text, bytes_eq}
use codenames_cpp_vibecoding.Protocol.{packet, pkt_edit_nick}
use codenames_cpp_vibecoding.Session.{World}
use codenames_cpp_vibecoding.Database.{DatabaseResult, success, Sqlite, row, done, Db}
use codenames_cpp_vibecoding.Database.Signup.{
  sql_begin, sql_commit, sql_rollback, sql_taken, signup_user,
}
use codenames_cpp_vibecoding.Database.Laws.{Laws}
use codenames_cpp_vibecoding.Database.Atomic.{signup_user_atomic}
use codenames_cpp_vibecoding.SessionManager.Auth.{parse_auth, handle_auth_protocol}
use codenames_cpp_vibecoding.SessionManager.Auth.Answers.{
  Effects, handle_auth_protocol-Answers, edit_nick_without_login,
}
use codenames_cpp_vibecoding.Assoc
use codenames_cpp_vibecoding.Protocol.{pkt_signup, pkt_query_wait, pkt_auth_error_unknown}
use codenames_cpp_vibecoding.Session.{authenticating, post_send}
use codenames_cpp_vibecoding.Server.{Server, with_world}
use codenames_cpp_vibecoding.Server.Receive.{dispatch}
use codenames_cpp_vibecoding.Server.Enrolled.{signup_cannot_queue}
use codenames_cpp_vibecoding.Server.Network.{io_failed, port_closed, worker_loop}
use codenames_cpp_vibecoding.Server.Network.Draining.{
  IsOpen, Closed, lost_by_failure, lost_connection_closes,
}
use codenames_cpp_vibecoding.Tests.Fixtures.{
  demo_world, demo_hub, demo_session, demo_server, demo_manager-Inv,
}

-- The texts that were inserted, and those at the beginning of the open transaction.
record Memory : Type 0 where
  rows : List Bytes
  before : Option (List Bytes)

data Command : Type 0 where
  begins ends undoes other : Command

abbrev command : Bytes → Command
command sql =
    if bytes_eq sql sql_begin
    then begins
    else if bytes_eq sql sql_commit
    then ends
    else if bytes_eq sql sql_rollback
    then undoes
    else other

abbrev run : Command → Option (List Bytes) → List Bytes → Bool × Memory
run begins none rows = (true, record { rows = rows; before = some rows })
run begins (some t) rows = (false, record { rows = rows; before = some t })
run ends none rows = (false, record { rows = rows; before = none })
run ends (some t) rows = (true, record { rows = rows; before = none })
run undoes none rows = (false, record { rows = rows; before = none })
run undoes (some t) rows = (true, record { rows = t; before = none })
run other before rows = (true, record { rows = rows; before = before })

abbrev holds_one : List Bytes → List Bytes → Bool
holds_one [] rows = false
holds_one (b ∷ bs) [] = false
holds_one (b ∷ bs) (r ∷ rs) =
    let rest = holds_one (b ∷ bs) rs in if bytes_eq b r then true else rest

-- A question is answered with an empty row if its first text is there, and any other statement
-- inserts its texts.
abbrev memory : Sqlite
memory = record {
  Conn = Memory;
  exec = λ sql c. run (command sql) c.before c.rows;
  prepare = λ sql c. true;
  step = λ sql binds c.
      if bytes_eq sql sql_taken
      then (if holds_one binds c.rows then row [] else done, c)
      else (done, record c { rows = binds ++ c.rows });
  changes = λ c. 1;
}

begin_command : command sql_begin ≡ begins
unfolding bytes_eq text
begin_command = refl

commit_command : command sql_commit ≡ ends
unfolding bytes_eq text
commit_command = refl

rollback_command : command sql_rollback ≡ undoes
unfolding bytes_eq text
rollback_command = refl

memory_laws : Laws memory
memory_laws = record {
  Content = List Bytes;
  content = λ c. c.rows;
  Pending = λ t c. c.before ≡ some t;
  begins = λ c. rw begin_command (begin_pending c.before c.rows);
  refused_begin = λ c. rw begin_command (begin_refused c.before c.rows);
  Idle = λ c. c.before ≡ none;
  stays_pending = λ sql binds c t i p h. ground (arith, p);
  fails = λ sql binds c t i p e. inl (ground (arith, p));
  idle_rollback = λ c i. rw rollback_command (rw i refl);
  refused_commit = λ c t p. rw commit_command (rw p (λ e. absurd (ground arith)));
  rolls_back = λ c t p. rw rollback_command (rw p refl);
}
  where
    begin_pending :
        (before : Option (List Bytes)) (rows : List Bytes)
        → (run begins before rows).0 ≡ true
        → (run begins before rows).1.before ≡ some rows
    begin_pending none rows e = refl
    begin_pending (some t) rows e = absurd (ground arith)

    begin_refused :
        (before : Option (List Bytes)) (rows : List Bytes)
        → (run begins before rows).0 ≡ false
        → (run begins before rows).1.rows ≡ rows
    begin_refused none rows e = refl
    begin_refused (some t) rows e = refl

abbrev demo_db : Db memory
demo_db = record { opened = true; conn = record { rows = text "ann" ∷ []; before = none } }

abbrev weak_hash : Bytes → ℕ
weak_hash s = 255 + length s

abbrev draw : ℕ → ℕ
draw i = 61

signup_user_atomic_example :
    (x : DatabaseResult × Db memory) × (signup_user memory weak_hash draw false
        (text "ann")
        (text "pw")
        (text "Ann")
        demo_db
      ≡ returned x)
    × (x.0 ≢ success → memory_laws.content x.1.conn ≡ memory_laws.content demo_db.conn)
unfolding bytes_eq text
signup_user_atomic_example =
    signup_user_atomic memory memory_laws weak_hash draw (text "ann") (text "pw") (text "Ann")
      demo_db (λ e. ground (arith, e))

handle_auth_protocol-Answers_example :
    Answers
      (λ x. Effects memory weak_hash 2 (parse_auth (text "LOGIN|ann|pw")) demo_world demo_db x.0)
      (handle_auth_protocol memory weak_hash draw draw 2 (text "LOGIN|ann|pw") demo_world demo_db)
handle_auth_protocol-Answers_example =
    handle_auth_protocol-Answers memory weak_hash draw draw (λ i. omega arith) 2
      (text "LOGIN|ann|pw") demo_world demo_db (omega arith)

edit_nick_without_login_example :
    (w' : World) × (handle_auth_protocol memory weak_hash draw draw 2
        (packet pkt_edit_nick ([] ∷ text "Eve" ∷ []))
        demo_world
        demo_db
      ≡ returned (w', demo_db))
    × ((w'.sessions 2).username ≡ text "Eve")
edit_nick_without_login_example =
    edit_nick_without_login memory weak_hash draw draw 2 (text "Eve") demo_world demo_db refl

-- A session that has not logged in yet.
abbrev fresh_server : Server
fresh_server = record demo_server {
  hub = record demo_hub {
    world = record demo_world {
      sessions = λ q. record (demo_session q) { current_state = authenticating };
    };
  };
}

signup_cannot_queue_example :
    Answers
      (λ r.
        dispatch memory weak_hash draw draw
          (r.0.hub.world.sessions 1).current_state
          1
          (packet pkt_query_wait (text "token" ∷ []))
          r.0
          r.1
        ≡ returned (with_world (post_send 1 pkt_auth_error_unknown r.0.hub.world) r.0, r.1))
      (dispatch memory weak_hash draw draw
        (fresh_server.hub.world.sessions 1).current_state
        1
        (packet pkt_signup ((98 ∷ []) ∷ (99 ∷ []) ∷ (100 ∷ []) ∷ []))
        fresh_server
        demo_db)
signup_cannot_queue_example =
    signup_cannot_queue memory weak_hash draw draw 1 (98 ∷ []) (99 ∷ []) (100 ∷ []) (text "token")
      fresh_server demo_db ((λ e. absurd (omega arith)), tt) ((λ e. absurd (omega arith)), tt) refl
      refl

-- The connection of the session 0 is lost.
demo_server-IsOpen : IsOpen 0 demo_server
unfolding Assoc.lookup
demo_server-IsOpen = record {
  open_flag = refl;
  server = refl;
  real = λ e. absurd (omega arith);
  here = refl;
  valid = demo_manager-Inv;
}

lost_connection_closes_example :
    (v' : Server) × (worker_loop memory weak_hash draw draw
        ((true, io_failed (some 0)) ∷ [])
        demo_server
        demo_db
      ≡ worker_loop memory weak_hash draw draw [] v' demo_db)
    × (worker_loop memory weak_hash draw draw
          ((true, io_failed (some 0)) ∷ (false, port_closed) ∷ [])
          demo_server
          demo_db
        ≡ returned (v', demo_db))
    × Closed 0 demo_server v'
lost_connection_closes_example =
    lost_connection_closes memory weak_hash draw draw 0 (io_failed (some 0)) port_closed demo_server
      demo_db [] lost_by_failure demo_server-IsOpen
