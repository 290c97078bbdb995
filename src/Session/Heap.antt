-- ===== src/Session/Heap.antt =====
-- Reading a session after a write through a pointer.
use codenames_cpp_vibecoding.Prelude.{ℕ, ◌≡◌, refl, ◌≢◌, arith, ◌==◌, if◌then◌else◌}
use codenames_cpp_vibecoding.Session.{Session, World, modify}

pub modify_sessions :
    (p q : ℕ) (f : Session → Session) (w : World)
    → (modify p f w).sessions q ≡ (if q == p then f (w.sessions p) else w.sessions q)
unfolding modify
modify_sessions p q f w = refl

pub modify_self :
    (p : ℕ) (f : Session → Session) (w : World) → (modify p f w).sessions p ≡ f (w.sessions p)
unfolding modify
modify_self p f w = ground arith

pub modify_other :
    (p q : ℕ) (f : Session → Session) (w : World) → q ≢ p → (modify p f w).sessions q ≡ w.sessions q
unfolding modify
modify_other p q f w h = ground arith

pub modify_log : (p : ℕ) (f : Session → Session) (w : World) → (modify p f w).log ≡ w.log
unfolding modify
modify_log p f w = refl
