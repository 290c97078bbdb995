-- ===== src/Client/Network/Limits.antt =====
-- What SendData passes on.
use codenames_cpp_vibecoding.Prelude.{
  ◌≤◌, ◌≡◌, refl, ◌↔◌, arith, Bool, true, false, [], ◌∷◌, ◌++◌, length,
}
use codenames_cpp_vibecoding.Text.{Bytes, is_empty}
use codenames_cpp_vibecoding.Client.Network.{Network, send_data, buffer_size}

-- From 1 to 2048 bytes.
abbrev pub FitsBuffer : Bytes → Type 0
FitsBuffer d = (1 ≤ length d) × (length d ≤ buffer_size)

is_empty-length : (d : Bytes) → 1 ≤ length d → is_empty d ≡ false
unfolding is_empty
is_empty-length [] h = absurd (omega arith)
is_empty-length (c ∷ d) h = refl

length-is_empty : (d : Bytes) → is_empty d ≡ false → 1 ≤ length d
unfolding is_empty
length-is_empty [] h = cc
length-is_empty (c ∷ d) h = omega arith

-- SendData returns true exactly if the client is connected, the data have from 1 to 2048 bytes, and
-- WSASend accepts them.
pub send_data_iff :
    (accepted : Bool) (d : Bytes) (n : Network)
    → ((send_data accepted d n).1 ≡ true)
      ↔ ((n.connected ≡ true) × FitsBuffer d × (accepted ≡ true))
unfolding send_data
send_data_iff accepted d n =
    (λ h. ground (arith, length-is_empty d), λ h. ground (arith, is_empty-length d))

-- The data that fit leave a connected client, behind those before.
pub send_data_sends :
    (d : Bytes) (n : Network)
    → n.connected ≡ true
    → FitsBuffer d
    → send_data true d n ≡ (record n { wire = n.wire ++ d ∷ [] }, true)
unfolding send_data
send_data_sends d n c f = ground (arith, is_empty-length d f.0)
