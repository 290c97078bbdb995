-- ===== src/Server/Network/Draining.antt =====
-- What a worker thread makes of a lost connection, and how it stops.
use codenames_cpp_vibecoding.Prelude.{
  ℕ, suc, ◌≡◌, ◌≢◌, refl, ap, ◌∙◌, arith, Bool, true, false, List, [], ◌∷◌, none, some,
  if◌then◌else◌, ◌==◌,
}
use codenames_cpp_vibecoding.Outcome.{returned}
use codenames_cpp_vibecoding.Text.{Bytes, is_empty}
use codenames_cpp_vibecoding.Session.{World, Session, invalid_socket, recv, modify}
use codenames_cpp_vibecoding.Session.Heap.{modify_self, modify_other, modify_log}
use codenames_cpp_vibecoding.Database.{Sqlite, Db}
use codenames_cpp_vibecoding.SessionManager.{close_session, remove_session, close_flag, drop_socket}
use codenames_cpp_vibecoding.SessionManager.Registry.{Inv, at, remove_session_unregisters}
use codenames_cpp_vibecoding.Server.{Server}
use codenames_cpp_vibecoding.Server.Receive.{close, process_completion, process_recv}
use codenames_cpp_vibecoding.Server.Network.{
  Arrival, io_failed, completed, process_completion_packet, worker_round, worker_loop,
}

-- The session at `p` is closed and no longer registered, and all else is as before.
pub record Closed (p : ℕ) (v v' : Server) : Type 0 where
  pub flag : (v'.hub.world.sessions p).is_closed ≡ true
  pub dropped : (v'.hub.world.sessions p).socket ≡ invalid_socket
  pub others : (q : ℕ) → q ≢ p → v'.hub.world.sessions q ≡ v.hub.world.sessions q
  pub silent : v'.hub.world.log ≡ v.hub.world.log
  pub valid : Inv v'.hub.manager
  pub counted : suc v'.hub.manager.session_count ≡ v.hub.manager.session_count
  pub registry :
      (socket : ℕ)
      → at v'.hub.manager socket
        ≡ (if (v.hub.world.sessions p).socket == socket then none else at v.hub.manager socket)

-- A session that is open and registered.
pub record IsOpen (p : ℕ) (v : Server) : Type 0 where
  pub open_flag : (v.hub.world.sessions p).is_closed ≡ false
  pub server : (v.hub.world.sessions p).server ≡ true
  pub real : (v.hub.world.sessions p).socket ≢ invalid_socket
  pub here : at v.hub.manager (v.hub.world.sessions p).socket ≡ some p
  pub valid : Inv v.hub.manager

flagged : ℕ → World → World
flagged p w = modify p close_flag w

different : (a b : ℕ) → a ≢ b → (a == b) ≡ false
different a b h = ground arith

-- What Close does to an open session.
close_open :
    (p : ℕ) (v : Server)
    → IsOpen p v
    → close p v ≡ record v {
      hub = record (v.hub) {
        manager =
            remove_session (v.hub.world.sessions p).socket v.hub.manager (flagged p v.hub.world);
        world = modify p drop_socket (flagged p v.hub.world);
      };
    }
unfolding close close_session flagged
close_open p v o =
    simp (o.open_flag, o.server, different (v.hub.world.sessions p).socket invalid_socket o.real)
      refl

record Emptied (p : ℕ) (w w' : World) : Type 0 where
  flag : (w'.sessions p).is_closed ≡ true
  dropped : (w'.sessions p).socket ≡ invalid_socket
  others : (q : ℕ) → q ≢ p → w'.sessions q ≡ w.sessions q
  silent : w'.log ≡ w.log

modify-Emptied : (p : ℕ) (w : World) → Emptied p w (modify p drop_socket (flagged p w))
unfolding flagged drop_socket close_flag
modify-Emptied p w =
    let at_last = modify_self p drop_socket (flagged p w) in
    let before = modify_self p close_flag w in
    record {
      flag = ap (λ (s : Session). s.is_closed) at_last ∙ ap (λ (s : Session). s.is_closed) before;
      dropped = ap (λ (s : Session). s.socket) at_last;
      others =
          λ q h. modify_other p q drop_socket (flagged p w) h ∙ modify_other p q close_flag w h;
      silent = modify_log p drop_socket (flagged p w) ∙ modify_log p close_flag w;
    }

close-Closed : (p : ℕ) (v : Server) → IsOpen p v → Closed p v (close p v)
close-Closed p v o =
    let socket = (v.hub.world.sessions p).socket in
    let w : Emptied p v.hub.world (modify p drop_socket (flagged p v.hub.world)) =
      modify-Emptied p v.hub.world in
    let (valid, counted, registry) =
      remove_session_unregisters socket p v.hub.manager (flagged p v.hub.world) o.here o.real
        o.valid in
    simp (close_open p v o) (record {
      flag = w.flag;
      dropped = w.dropped;
      others = w.others;
      silent = w.silent;
      valid = valid;
      counted = counted;
      registry = registry;
    })

-- What tells a worker that the connection of the session is lost: an operation that failed, and a
-- receive of no bytes.
pub data IsLost (p : ℕ) : Arrival → Type 0 where
  lost_by_failure : IsLost p (io_failed (some p))
  lost_by_end :
      {a : Arrival} (posted : Bool) → a ≡ completed (some p) (some (posted, recv, [])) → IsLost p a

module _ (S : Sqlite) (hash : Bytes → ℕ) (salt_draws token_draws : ℕ → ℕ) where
  lost_round :
      (p : ℕ) (a : Arrival) (v : Server) (d : Db S)
      → IsLost p a
      → worker_round S hash salt_draws token_draws a v d ≡ returned ((close p v, d), true)
  unfolding worker_round process_completion_packet process_completion process_recv is_empty
  lost_round p a v d lost_by_failure = refl
  lost_round p a v d (lost_by_end posted e) = rw e refl

  -- A worker that learns that the connection of an open, registered session is lost closes it: the
  -- session is marked closed and has no socket, no other session changes, nothing is sent, its
  -- socket leads nowhere in the registry, all others lead where they led, and the count is one less.
  -- The database is as before; and the worker goes on with what comes next, until the first test
  -- that finds isRunning_ false.
  pub lost_connection_closes :
      (p : ℕ) (a b : Arrival) (v : Server) (d : Db S) (rest : List (Bool × Arrival))
      → IsLost p a
      → IsOpen p v
      → (v' : Server) × (worker_loop S hash salt_draws token_draws ((true, a) ∷ rest) v d
          ≡ worker_loop S hash salt_draws token_draws rest v' d)
        × (worker_loop S hash salt_draws token_draws ((true, a) ∷ (false, b) ∷ rest) v d
            ≡ returned (v', d))
        × Closed p v v'
  unfolding worker_loop
  lost_connection_closes p a b v d rest l o = (
    close p v,
    rw (lost_round p a v d l) refl,
    rw (lost_round p a v d l) refl,
    close-Closed p v o,
  )
