-- ===== src/SessionManager/Registry.antt =====
-- The registry: what add_session and remove_session do to lookups and to the count.
use codenames_cpp_vibecoding.Prelude.{
  ℕ, suc, ◌<◌, ◌≡◌, ◌≢◌, refl, arith, true, false, Option, none, some, if◌then◌else◌, length, ◌==◌,
  ==_iff, Bool-cases, inl, inr,
}
use codenames_cpp_vibecoding.Assoc
use codenames_cpp_vibecoding.Text.{is_empty, bytes_eq}
use codenames_cpp_vibecoding.Session.{World, invalid_socket}
use codenames_cpp_vibecoding.SessionManager.{
  SessionManager, nat_eq, word_mod, add_session, register_token, remove_session,
}

-- A registry with one entry for each socket and each token, and the right count.
pub record Inv (m : SessionManager) : Type 0 where
  pub sockets : Assoc.Keys nat_eq m.sessions
  pub tokens : Assoc.Keys bytes_eq m.token_to_socket
  pub counted : m.session_count ≡ length m.sessions
  pub bounded : length m.sessions < word_mod

-- The pointer that a socket is registered with.
abbrev pub at : SessionManager → ℕ → Option ℕ
at m socket = Assoc.lookup nat_eq socket m.sessions

-- A session with a free socket and no token is registered: its socket leads to it, all others
-- lead where they led, the tokens are as before, and the count is one more.
pub add_session_registers :
    (p : ℕ) (m : SessionManager) (w : World)
    → Assoc.contains nat_eq (w.sessions p).socket m.sessions ≡ false
    → is_empty (w.sessions p).token ≡ true
    → suc (length m.sessions) < word_mod
    → Inv m
    → let (h, done) = add_session (some p) m w in
      (done ≡ true)
      × Inv h
      × (h.token_to_socket ≡ m.token_to_socket)
      × (h.session_count ≡ suc m.session_count)
      × ((socket : ℕ)
          → at h socket ≡ (if (w.sessions p).socket == socket then some p else at m socket))
unfolding add_session
add_session_registers p m w free unnamed room v =
    let s = w.sessions p in
    rw (free, unnamed, add_session, register_token)
      (
        refl,
        record {
          sockets = Assoc.insert-Keys nat_eq ==_iff s.socket p m.sessions v.sockets;
          tokens = v.tokens;
          counted =
              ground (arith, Assoc.length-insert nat_eq s.socket p m.sessions free, v.counted);
          bounded = ground (arith, Assoc.length-insert nat_eq s.socket p m.sessions free);
        },
        refl,
        ground (arith, v.counted),
        λ socket. Assoc.lookup-insert nat_eq ==_iff s.socket socket p m.sessions,
      )

-- A socket that is registered already is refused, and nothing changes.
pub add_session_duplicate :
    (p : ℕ) (m : SessionManager) (w : World)
    → Assoc.contains nat_eq (w.sessions p).socket m.sessions ≡ true
    → add_session (some p) m w ≡ (m, false)
unfolding add_session
add_session_duplicate p m w taken = rw (taken, add_session)

-- A registered socket is removed: it leads nowhere any more, all others lead where they led, and
-- the count is one less.
pub remove_session_unregisters :
    (socket p : ℕ) (m : SessionManager) (w : World)
    → at m socket ≡ some p
    → socket ≢ invalid_socket
    → Inv m
    → let h = remove_session socket m w in
      Inv h
      × (suc h.session_count ≡ m.session_count)
      × ((other : ℕ) → at h other ≡ (if socket == other then none else at m other))
unfolding remove_session
remove_session_unregisters socket p m w here real v =
    let fewer =
      Assoc.length-erase nat_eq socket m.sessions
        (Assoc.lookup-contains nat_eq socket m.sessions here) in
    let valid : (socket == invalid_socket) ≡ false = ground arith in
    rw (valid, here, remove_session)
      (
        record {
          sockets = Assoc.erase-Keys nat_eq socket m.sessions v.sockets;
          tokens = elim (Bool-cases (is_empty (w.sessions p).token)) [
            | inl e ↦ rw e v.tokens
            | inr e ↦
                rw e (Assoc.erase-Keys bytes_eq (w.sessions p).token m.token_to_socket v.tokens)
          ];
          counted = ground (arith, fewer, v.counted);
          bounded = ground (arith, fewer);
        },
        ground (arith, fewer, v.counted),
        λ other. Assoc.lookup-erase nat_eq ==_iff socket other m.sessions v.sockets,
      )
