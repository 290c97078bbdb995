-- ===== src/Server/Enrolled.antt =====
-- A client that has just signed up, from SessionManager::HandleAuthProtocol to the matching queue:
-- the server leaves its session where it was, while the client goes on to its main menu.
use codenames_cpp_vibecoding.Prelude.{ℕ, ◌≡◌, refl, ◌∙◌, ap, true, [], ◌∷◌}
use codenames_cpp_vibecoding.Outcome.{returned, Answers}
use codenames_cpp_vibecoding.Text.{Bytes, pipe, text, starts_with}
use codenames_cpp_vibecoding.Text.Fields.{Lacks}
use codenames_cpp_vibecoding.Protocol.{
  packet, fields, payload, pkt_signup, pkt_query_wait, pkt_auth_error_unknown,
}
use codenames_cpp_vibecoding.Session.{
  World, Session, authenticating, modify, post_send, set_nickname, set_token,
}
use codenames_cpp_vibecoding.Session.Heap.{modify_self}
use codenames_cpp_vibecoding.Session.Sending.{post_send_sessions}
use codenames_cpp_vibecoding.Database.{DatabaseResult, success, Sqlite, Db}
use codenames_cpp_vibecoding.Database.Signup.{signup_user, register}
use codenames_cpp_vibecoding.SessionManager.Auth.{
  unknown, parse_auth, enrol, handle_auth_request, handle_auth_protocol,
}
use codenames_cpp_vibecoding.SessionManager.Auth.Reading.{parse_auth-packet}
use codenames_cpp_vibecoding.Server.{Server, with_world}
use codenames_cpp_vibecoding.Server.Receive.{dispatch}

parse_auth-query_wait : (t : Bytes) → parse_auth (packet pkt_query_wait (t ∷ [])) ≡ unknown
unfolding parse_auth packet fields payload starts_with text
parse_auth-query_wait t = refl

-- The session is where it was.
abbrev Stays : ℕ → World → World → Type 0
Stays p w w' =
    ((w'.sessions p).current_state ≡ (w.sessions p).current_state)
    × ((w'.sessions p).server ≡ (w.sessions p).server)

answered-Stays : (p : ℕ) (m : Bytes) (w w' : World) → Stays p w w' → Stays p w (post_send p m w')
answered-Stays p m w w' s = rw (post_send_sessions p m w') s

written-Stays :
    (p : ℕ) (f : Session → Session) (w w' : World)
    → ((s : Session) → ((f s).current_state ≡ s.current_state) × ((f s).server ≡ s.server))
    → Stays p w w'
    → Stays p w (modify p f w')
written-Stays p f w w' keep s =
    let at = modify_self p f w' in
    let (state, server) = keep (w'.sessions p) in
    (
      ap (λ (x : Session). x.current_state) at ∙ state ∙ s.0,
      ap (λ (x : Session). x.server) at ∙ server ∙ s.1,
    )

enrol-Stays :
    (draws : ℕ → ℕ) (p : ℕ) (nick : Bytes) (r : DatabaseResult) (w : World)
    → Stays p w (enrol draws p nick r w)
unfolding enrol
enrol-Stays draws p nick success w = answered-Stays p _ w _ (
    written-Stays p (set_nickname nick) w _ (λ s. (refl, refl))
      (written-Stays p (set_token _) w w (λ s. (refl, refl)) (refl, refl)))
enrol-Stays draws p nick _ w = answered-Stays p _ w w (refl, refl)

module _ (S : Sqlite) (hash : Bytes → ℕ) (salt_draws token_draws : ℕ → ℕ) where
  dispatch-query_wait :
      (p : ℕ) (t : Bytes) (v : Server) (d : Db S)
      → (v.hub.world.sessions p).current_state ≡ authenticating
      → (v.hub.world.sessions p).server ≡ true
      → dispatch S hash salt_draws token_draws
          (v.hub.world.sessions p).current_state
          p
          (packet pkt_query_wait (t ∷ []))
          v
          d
        ≡ returned (with_world (post_send p pkt_auth_error_unknown v.hub.world) v, d)
  unfolding dispatch handle_auth_protocol handle_auth_request
  dispatch-query_wait p t v d c s =
      rw (c, s, dispatch, parse_auth-query_wait t, handle_auth_request) refl

  -- What the database makes of a signup goes into the session.
  signed_up : ℕ → Bytes → Server → DatabaseResult × Db S → Server × Db S
  signed_up p nick v r = (with_world (enrol token_draws p nick r.0 v.hub.world) v, r.1)

  dispatch-signup :
      (p : ℕ) (id pw nick : Bytes) (v : Server) (d : Db S)
      → Lacks pipe id
      → Lacks pipe pw
      → (v.hub.world.sessions p).server ≡ true
      → dispatch S hash salt_draws token_draws authenticating p
          (packet pkt_signup (id ∷ pw ∷ nick ∷ []))
          v
          d
        ≡ returned (signed_up p nick v (register S hash salt_draws id pw nick d))
  unfolding dispatch handle_auth_protocol handle_auth_request signup_user signed_up
  dispatch-signup p id pw nick v d l k s =
      rw (s, (parse_auth-packet id pw nick l k).1, handle_auth_request) refl

  -- A session that waits for its authentication signs up, by a packet whose user name and password
  -- hold no delimiter. Then, however the database answers, the next request to enter the matching
  -- queue, with whatever token, is answered by AUTH_ERROR|UNKNOWN_PACKET, and nothing else happens.
  pub signup_cannot_queue :
      (p : ℕ) (id pw nick t : Bytes) (v : Server) (d : Db S)
      → Lacks pipe id
      → Lacks pipe pw
      → (v.hub.world.sessions p).server ≡ true
      → (v.hub.world.sessions p).current_state ≡ authenticating
      → Answers
          (λ r.
            dispatch S hash salt_draws token_draws
              (r.0.hub.world.sessions p).current_state
              p
              (packet pkt_query_wait (t ∷ []))
              r.0
              r.1
            ≡ returned (with_world (post_send p pkt_auth_error_unknown r.0.hub.world) r.0, r.1))
          (dispatch S hash salt_draws token_draws
            (v.hub.world.sessions p).current_state
            p
            (packet pkt_signup (id ∷ pw ∷ nick ∷ []))
            v
            d)
  unfolding signed_up
  signup_cannot_queue p id pw nick t v d l k s c =
      rw (c, dispatch-signup p id pw nick v d l k s)
        (let (r, d') = register S hash salt_draws id pw nick d in
          let (state, server) = enrol-Stays token_draws p nick r v.hub.world in
          dispatch-query_wait p t _ d' (state ∙ c) (server ∙ s))
