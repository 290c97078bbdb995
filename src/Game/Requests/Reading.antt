-- ===== src/Game/Requests/Reading.antt =====
-- A packet that a client puts together by the protocol is read back as what it asked for.
use codenames_cpp_vibecoding.Prelude.{◌≡◌, refl, ap, [], ◌∷◌, ◌++◌, ℤ, Option, none, some}
use codenames_cpp_vibecoding.Text.{Bytes, pipe, text, starts_with, to_string}
use codenames_cpp_vibecoding.Text.Fields.{Lacks, split_at-append}
use codenames_cpp_vibecoding.Text.Decimal.{IsInt, stoi-to_string}
use codenames_cpp_vibecoding.Protocol.{packet, payload, pkt_hint_msg, pkt_answer, pkt_chat}
use codenames_cpp_vibecoding.Protocol.Parsing.{packet_one, packet_two}
use codenames_cpp_vibecoding.Game.Requests.{
  Request, bad_hint, hint, answer, chat, parse_hint, parse_request,
}

parse_hint-fields :
    (word : Bytes) (n : ℤ)
    → Lacks pipe word
    → IsInt n
    → parse_hint (word ++ pipe ∷ to_string n) ≡ some (word, n)
unfolding parse_hint
parse_hint-fields word n l h =
    rw (split_at-append pipe word (to_string n) l, parse_hint, stoi-to_string n h)

-- What HandleGamePacket asks for when the parameters of a hint are read.
params_request : Option (Bytes × ℤ) → Request
params_request none = bad_hint
params_request (some (w, n)) = hint w n

parse_hint_packet :
    (word : Bytes) (n : ℤ)
    → Lacks pipe word
    → IsInt n
    → parse_request (packet pkt_hint_msg (word ∷ to_string n ∷ [])) ≡ hint word n
unfolding parse_request payload starts_with text params_request
parse_hint_packet word n l h =
    rw (packet_two pkt_hint_msg word (to_string n))
      (ap params_request (parse_hint-fields word n l h))

-- A hint whose word has no delimiter and whose number is an `int` is read back with both; an
-- answer and a chat line are read back whole, whatever they hold.
pub parse_request-packet :
    (word message : Bytes) (n : ℤ)
    → Lacks pipe word
    → IsInt n
    → (parse_request (packet pkt_hint_msg (word ∷ to_string n ∷ [])) ≡ hint word n)
      × (parse_request (packet pkt_answer (message ∷ [])) ≡ answer message)
      × (parse_request (packet pkt_chat (message ∷ [])) ≡ chat message)
unfolding parse_request payload starts_with text
parse_request-packet word message n l h = (
  parse_hint_packet word n l h,
  rw (packet_one pkt_answer message) refl,
  rw (packet_one pkt_chat message) refl,
)
