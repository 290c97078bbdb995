-- ===== src/Protocol/Sizes.antt =====
-- The length of a packet.
use codenames_cpp_vibecoding.Prelude.{
  ℕ, suc, ◌+◌, ◌≡◌, refl, arith, List, [], ◌∷◌, length, length-append,
}
use codenames_cpp_vibecoding.Text.{Bytes}
use codenames_cpp_vibecoding.Protocol.{packet, fields}

-- The fields with a delimiter before each.
abbrev pub total : List Bytes → ℕ
total [] = 0
total (f ∷ fs) = suc (length f + total fs)

length-fields : (fs : List Bytes) → length (fields fs) ≡ total fs
unfolding fields
length-fields [] = refl
length-fields (f ∷ fs) = omega (arith, length-append f (fields fs), length-fields fs)

pub length-packet : (tag : Bytes) (fs : List Bytes) → length (packet tag fs) ≡ length tag + total fs
unfolding packet
length-packet tag fs = omega (arith, length-append tag (fields fs), length-fields fs)
