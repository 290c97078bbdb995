-- ===== src/SessionManager/Auth/Replies.antt =====
-- The replies of HandleAuthProtocol: one message to the session that asked, which PostSend takes.
use codenames_cpp_vibecoding.Prelude.{
  ℕ, ◌≤◌, ◌<◌, ◌≡◌, refl, ◌∙◌, ap, arith, false, List, [], ◌∷◌, ◌++◌, some, ◌⊎◌, inl, inr, length,
  get_elem?,
}
use codenames_cpp_vibecoding.Protocol.{
  pkt_check_id_duplicate, pkt_check_id_ok, pkt_signup_ok, pkt_signup_duplicate, pkt_signup_error,
  pkt_login_ok, pkt_login_no_account, pkt_login_wrong_pw, pkt_login_suspended, pkt_login_error,
  pkt_token_valid, pkt_invalid_token, pkt_nickname_edit_ok, pkt_nickname_edit_error,
  pkt_auth_error_unknown, packet,
}
use codenames_cpp_vibecoding.Protocol.Sizes.{length-packet}
use codenames_cpp_vibecoding.Text.{Bytes, is_empty, text}
use codenames_cpp_vibecoding.Session.{
  World, Session, UserInfo, Effect, sent, in_lobby, modify, post_send, set_state,
}
use codenames_cpp_vibecoding.Session.Heap.{modify_log}
use codenames_cpp_vibecoding.Session.Sending.{Fits, post_send_log}
use codenames_cpp_vibecoding.Database.{DatabaseResult, success, nick_duplicate}
use codenames_cpp_vibecoding.Database.Secrets.{generate_token}
use codenames_cpp_vibecoding.Database.Secrets.Hashing.{generate_token_chars}
use codenames_cpp_vibecoding.SessionManager.Auth.{
  AuthRequest, check_id, signup, bad_signup, login, bad_login, token, edit_nick, bad_edit, unknown,
  admit, enrol,
}

-- The answers to a request: what is sent is one of these, or one of these with a field.
abbrev pub answers : AuthRequest → List Bytes
answers (check_id id) = pkt_check_id_duplicate ∷ pkt_check_id_ok ∷ []
answers (signup id pw nick) = pkt_signup_ok ∷ pkt_signup_duplicate ∷ pkt_signup_error ∷ []
answers bad_signup = pkt_signup_error ∷ []
answers (login id pw) =
    pkt_login_ok ∷ pkt_login_no_account ∷ pkt_login_wrong_pw ∷ pkt_login_suspended ∷ pkt_login_error
    ∷ []
answers bad_login = pkt_login_error ∷ []
answers (token t) = pkt_token_valid ∷ pkt_invalid_token ∷ []
answers (edit_nick t nick) = pkt_nickname_edit_ok ∷ pkt_invalid_token ∷ []
answers bad_edit = pkt_nickname_edit_error ∷ []
answers unknown = pkt_auth_error_unknown ∷ []

-- One message went out, to the session `p`: the answer with the number `i`.
pub record Replied (p : ℕ) (q : AuthRequest) (w w' : World) : Type 0 where
  pub i : ℕ
  pub tag : Bytes
  pub message : Bytes
  pub listed : get_elem? (answers q) i ≡ some tag
  pub shape : (message ≡ tag) ⊎ ((f : Bytes) × (message ≡ packet tag (f ∷ [])))
  pub logged : w'.log ≡ w.log ++ sent p message ∷ []

-- A message of the program's that is a bare tag.
abbrev pub IsShort : Bytes → Type 0
IsShort t = (is_empty t ≡ false) × (length t ≤ 30)

short-Fits : (t : Bytes) → IsShort t → Fits t
short-Fits t h = (h.0, omega (arith, h.1))

field-Fits : (t f : Bytes) → IsShort t → length f ≤ 4000 → Fits (packet t (f ∷ []))
unfolding packet is_empty
field-Fits [] f h l = cc
field-Fits (c ∷ t) f h l = (refl, omega (arith, length-packet (c ∷ t) (f ∷ []), h.1))

pub reply_tag :
    (p i : ℕ) (q : AuthRequest) (t : Bytes) (w v : World)
    → get_elem? (answers q) i ≡ some t
    → IsShort t
    → v.log ≡ w.log
    → Replied p q w (post_send p t v)
reply_tag p i q t w v e h same = record {
  i = i;
  tag = t;
  message = t;
  listed = e;
  shape = inl refl;
  logged = post_send_log p t v (short-Fits t h) ∙ ap (λ (l : List Effect). l ++ sent p t ∷ []) same;
}

pub reply_field :
    (p i : ℕ) (q : AuthRequest) (t f : Bytes) (w v : World)
    → get_elem? (answers q) i ≡ some t
    → IsShort t
    → length f ≤ 4000
    → v.log ≡ w.log
    → Replied p q w (post_send p (packet t (f ∷ [])) v)
reply_field p i q t f w v e h l same = record {
  i = i;
  tag = t;
  message = packet t (f ∷ []);
  listed = e;
  shape = inr (f, refl);
  logged =
      post_send_log p (packet t (f ∷ [])) v (field-Fits t f h l)
      ∙ ap (λ (k : List Effect). k ++ sent p (packet t (f ∷ [])) ∷ []) same;
}

-- The token of 32 characters fits.
token_short : (draws : ℕ → ℕ) → ((i : ℕ) → draws i < 62) → length (generate_token draws 32) ≤ 4000
token_short draws h = omega (arith, (generate_token_chars draws 32 h).0)

pub enrol-Replied :
    (draws : ℕ → ℕ) (p : ℕ) (id pw nick : Bytes) (r : DatabaseResult) (w : World)
    → ((i : ℕ) → draws i < 62)
    → Replied p (signup id pw nick) w (enrol draws p nick r w)
unfolding enrol text is_empty
enrol-Replied draws p id pw nick success w h =
    reply_field p 0 (signup id pw nick) pkt_signup_ok _ w _ refl (refl, omega arith)
      (token_short draws h) (modify_log _ _ _ ∙ modify_log _ _ _)
enrol-Replied draws p id pw nick nick_duplicate w h =
    reply_tag p 1 (signup id pw nick) pkt_signup_duplicate w w refl (refl, omega arith) refl
enrol-Replied draws p id pw nick _ w h =
    reply_tag p 2 (signup id pw nick) pkt_signup_error w w refl (refl, omega arith) refl

-- The answer of `admit` is sent before the state changes.
Replied-modify :
    (p : ℕ) (q : AuthRequest) (f : Session → Session) (w v : World)
    → Replied p q w v
    → Replied p q w (modify p f v)
Replied-modify p q f w v r = record {
  i = r.i;
  tag = r.tag;
  message = r.message;
  listed = r.listed;
  shape = r.shape;
  logged = modify_log p f v ∙ r.logged;
}

pub admit-Replied :
    (draws : ℕ → ℕ) (p : ℕ) (id pw : Bytes) (info : UserInfo) (w : World)
    → ((i : ℕ) → draws i < 62)
    → Replied p (login id pw) w (admit draws p info w)
unfolding admit text is_empty
admit-Replied draws p id pw info w h = Replied-modify p (login id pw) (set_state in_lobby) w _ (
    reply_field p 0 (login id pw) pkt_login_ok _ w _ refl (refl, omega arith) (token_short draws h)
      (modify_log _ _ _ ∙ modify_log _ _ _ ∙ modify_log _ _ _ ∙ modify_log _ _ _))
