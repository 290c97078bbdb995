-- ===== src/Database/Secrets.antt =====
-- GenerateToken, GenerateSalt and HashPasswordWithSalt. A draw of the uniform distribution is a
-- number below 62, the argument `draws` gives them in order; `hash` is std::hash<std::string>.
pub mod Hashing
use codenames_cpp_vibecoding.Prelude.{
  ℕ, zero, suc, ◌+◌, ◌-◌, ◌/◌, ◌%◌, ◌≤◌, ◌<◌, ◌≡◌, refl, arith, Bool, true, false, List, [], ◌∷◌,
  ◌++◌, Option, none, some, if◌then◌else◌, ltb, get_elem?, take, length, length-append, All,
}
use codenames_cpp_vibecoding.Text.{Bytes, text}

abbrev pub salt_len : ℕ
salt_len = 16

abbrev pub alphanum : Bytes
alphanum = text "0123456789ABCDEFGHIJKLMNOPQRSTUVWXYZabcdefghijklmnopqrstuvwxyz"

-- `alphanum[dis(gen)]`; the distribution stays inside the array.
letter : ℕ → Bytes
letter d = elim (get_elem? alphanum d) [ none ↦ [] | some c ↦ c ∷ [] ]

-- The loop that appends `n` letters, from the draw `i` on.
letters : (ℕ → ℕ) → ℕ → ℕ → Bytes
letters draws i zero = []
letters draws i (suc n) = letter (draws i) ++ letters draws (suc i) n

unfoldable pub generate_token : (ℕ → ℕ) → ℕ → Bytes
unfolding letters letter
generate_token draws n = letters draws 0 n

unfoldable pub generate_salt : (ℕ → ℕ) → Bytes
unfolding letters letter
generate_salt draws = letters draws 0 15

hex_digit : ℕ → ℕ
hex_digit d = if ltb d 10 then b'0' + d else b'a' + (d - 10)

-- `std::hex << n`, with fuel above the number of digits.
to_hex : ℕ → ℕ → Bytes
to_hex zero n = []
to_hex (suc f) n =
    let rest = to_hex f (n / 16) in
    if ltb n 16 then hex_digit n ∷ [] else rest ++ hex_digit (n % 16) ∷ []

-- `while (s.length() < 64) s += s;`, with fuel for the rounds.
double_up : ℕ → Bytes → Bytes
double_up zero s = s
double_up (suc f) s = let rest = double_up f (s ++ s) in if ltb (length s) 64 then rest else s

-- 16 digits are enough for a 64-bit size_t, and 6 rounds take one digit to 64.
unfoldable pub hash_password_with_salt : (Bytes → ℕ) → Bytes → Bytes → Bytes
unfolding to_hex double_up hex_digit
hash_password_with_salt hash password salt =
    take 64 (double_up 6 (to_hex 16 (hash (password ++ salt))))
