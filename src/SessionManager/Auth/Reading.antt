-- ===== src/SessionManager/Auth/Reading.antt =====
-- An authentication packet that a client puts together by the protocol is read back.
use codenames_cpp_vibecoding.Prelude.{◌≡◌, refl, [], ◌∷◌, ◌++◌}
use codenames_cpp_vibecoding.Text.{Bytes, pipe, text, starts_with}
use codenames_cpp_vibecoding.Text.Fields.{Lacks, split_at-append}
use codenames_cpp_vibecoding.Protocol.{
  packet, payload, pkt_check_id, pkt_signup, pkt_login, pkt_token, pkt_edit_nick,
}
use codenames_cpp_vibecoding.Protocol.Parsing.{packet_one, packet_two, packet_three}
use codenames_cpp_vibecoding.SessionManager.Auth.{
  check_id, signup, login, token, edit_nick, parse_auth, signup_fields, login_fields, edit_fields,
}

signup_fields-split_at :
    (id pw last : Bytes)
    → Lacks pipe id
    → Lacks pipe pw
    → signup_fields (id ++ pipe ∷ (pw ++ pipe ∷ last)) ≡ signup id pw last
unfolding signup_fields
signup_fields-split_at id pw last h k =
    rw
      (split_at-append pipe id (pw ++ pipe ∷ last) h, signup_fields, split_at-append pipe pw last k)

login_fields-split_at :
    (id last : Bytes) → Lacks pipe id → login_fields (id ++ pipe ∷ last) ≡ login id last
unfolding login_fields
login_fields-split_at id last h = rw (split_at-append pipe id last h, login_fields)

edit_fields-split_at :
    (t last : Bytes) → Lacks pipe t → edit_fields (t ++ pipe ∷ last) ≡ edit_nick t last
unfolding edit_fields
edit_fields-split_at t last h = rw (split_at-append pipe t last h, edit_fields)

-- Each request is read back with its fields, if an id, a password that is not the last field, and
-- the token of EDIT_NICK hold no delimiter.
pub parse_auth-packet :
    (id pw last : Bytes)
    → Lacks pipe id
    → Lacks pipe pw
    → (parse_auth (packet pkt_check_id (id ∷ [])) ≡ check_id id)
      × (parse_auth (packet pkt_signup (id ∷ pw ∷ last ∷ [])) ≡ signup id pw last)
      × (parse_auth (packet pkt_login (id ∷ last ∷ [])) ≡ login id last)
      × (parse_auth (packet pkt_token (last ∷ [])) ≡ token last)
      × (parse_auth (packet pkt_edit_nick (id ∷ last ∷ [])) ≡ edit_nick id last)
unfolding parse_auth payload starts_with text
parse_auth-packet id pw last no_id no_pw = (
  rw (packet_one pkt_check_id id) refl,
  rw (packet_three pkt_signup id pw last) (signup_fields-split_at id pw last no_id no_pw),
  rw (packet_two pkt_login id last) (login_fields-split_at id last no_id),
  rw (packet_one pkt_token last) refl,
  rw (packet_two pkt_edit_nick id last) (edit_fields-split_at id last no_id),
)
