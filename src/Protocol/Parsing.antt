-- ===== src/Protocol/Parsing.antt =====
-- A packet that was put together from a tag and one field gives the field back.
use mathlib.Core.List.{append-nil, append_assoc}
use codenames_cpp_vibecoding.Prelude.{◌≡◌, sym, ap, [], ◌∷◌, ◌++◌, some}
use codenames_cpp_vibecoding.Text.{Bytes, pipe}
use codenames_cpp_vibecoding.Text.Fields.{starts_with-append, drop-append}
use codenames_cpp_vibecoding.Protocol.{packet, payload}

-- One field behind the tag.
pub packet_one : (tag field : Bytes) → packet tag (field ∷ []) ≡ (tag ++ pipe ∷ []) ++ field
unfolding packet
packet_one tag field = rw (append-nil field) (sym (append_assoc tag (pipe ∷ []) field))

pub packet_two : (tag a b : Bytes) → packet tag (a ∷ b ∷ []) ≡ (tag ++ pipe ∷ []) ++ (a ++ pipe ∷ b)
unfolding packet
packet_two tag a b = rw (append-nil b) (sym (append_assoc tag (pipe ∷ []) (a ++ pipe ∷ b)))

pub payload-append : (tag rest : Bytes) → payload tag ((tag ++ pipe ∷ []) ++ rest) ≡ some rest
unfolding payload
payload-append tag rest =
    rw (starts_with-append (tag ++ pipe ∷ []) rest) (ap some (drop-append (tag ++ pipe ∷ []) rest))

pub packet_three :
    (tag a b c : Bytes)
    → packet tag (a ∷ b ∷ c ∷ []) ≡ (tag ++ pipe ∷ []) ++ (a ++ pipe ∷ (b ++ pipe ∷ c))
unfolding packet
packet_three tag a b c =
    rw (append-nil c) (sym (append_assoc tag (pipe ∷ []) (a ++ pipe ∷ (b ++ pipe ∷ c))))
