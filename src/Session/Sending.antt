-- ===== src/Session/Sending.antt =====
-- PostSend changes no session, and sends exactly what fits the buffer.
use codenames_cpp_vibecoding.Prelude.{ℕ, ◌≡◌, ◌≤◌, arith, [], ◌∷◌, ◌++◌, length, false}
use codenames_cpp_vibecoding.Text.{Bytes, is_empty}
use codenames_cpp_vibecoding.Session.{World, sent, post_send, session_buffer_size}

pub post_send_sessions : (p : ℕ) (m : Bytes) (w : World) → (post_send p m w).sessions ≡ w.sessions
unfolding post_send
post_send_sessions p m w = ground arith

-- A message that `post_send` passes on.
abbrev pub Fits : Bytes → Type 0
Fits m = (is_empty m ≡ false) × (length m ≤ session_buffer_size)

pub post_send_log :
    (p : ℕ) (m : Bytes) (w : World) → Fits m → (post_send p m w).log ≡ w.log ++ sent p m ∷ []
unfolding post_send
post_send_log p m w h = ground arith
