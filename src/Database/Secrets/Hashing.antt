-- ===== src/Database/Secrets/Hashing.antt =====
-- The stored password is always 64 digits, and a login accepts what a signup stored.
use codenames_cpp_vibecoding.Prelude.{
  ℕ, zero, suc, ◌*◌, ◌^◌, ◌/◌, ◌%◌, ◌≤◌, ◌<◌, ◌≡◌, ◌↔◌, refl, arith, [], ◌∷◌, ◌++◌, Bool-cases, inl,
  inr, ltb, length, length-append, take, some, ℤ, pos, negsuc, All, get_elem?,
}
use native.Mathlib.Nat.{pow-suc}
use codenames_cpp_vibecoding.Outcome.{returned}
use codenames_cpp_vibecoding.Text.{Bytes, text}
use codenames_cpp_vibecoding.Text.Fields.{bytes_eq_iff}
use codenames_cpp_vibecoding.Database.{success, Sqlite}
use codenames_cpp_vibecoding.Database.Secrets.{
  alphanum, letter, letters, generate_token, to_hex, double_up, hash_password_with_salt, hex_digit,
}
use codenames_cpp_vibecoding.Database.Queries.{judge_login}

to_hex-nonempty : (f n : ℕ) → 0 < length (to_hex (suc f) n)
unfolding to_hex
to_hex-nonempty f n = ground (arith, length-append (to_hex f (n / 16)) (hex_digit (n % 16) ∷ []))

double_up_enough : (f : ℕ) (s : Bytes) → 64 ≤ length s * 2 ^ f → 64 ≤ length (double_up f s)
unfolding double_up
double_up_enough zero s h = ground arith
double_up_enough (suc f) s h = elim (Bool-cases (ltb (length s) 64)) [
  | inl e ↦
      rw e (double_up_enough f (s ++ s) (rw (length-append s s) (omega (arith, rw pow-suc at h))))
  | inr e ↦ rw e (ground arith)
]

length-take_enough : (n : ℕ) (s : Bytes) → n ≤ length s → length (take n s) ≡ n
length-take_enough zero s h = refl
length-take_enough (suc n) [] h = absurd (omega arith)
length-take_enough (suc n) (c ∷ s) h = ground (arith, length-take_enough n s)

-- Whatever the hash function gives, the doubling loop ends with enough digits, and 64 are stored.
pub length-hash_password_with_salt :
    (hash : Bytes → ℕ) (pw salt : Bytes) → length (hash_password_with_salt hash pw salt) ≡ 64
unfolding hash_password_with_salt
length-hash_password_with_salt hash pw salt =
    let s = to_hex 16 (hash (pw ++ salt)) in
    length-take_enough 64 (double_up 6 s)
      (double_up_enough 6 s (omega (arith, to_hex-nonempty 15 (hash (pw ++ salt)))))

-- With the stored password and salt at hand a login succeeds exactly when the account is not
-- suspended and the password hashes to what is stored. In particular the password given at the
-- signup is accepted.
pub judge_login_iff :
    (S : Sqlite) (hash : Bytes → ℕ) (pw stored salt : Bytes) (flag : ℤ)
    → (judge_login S hash pw (some stored) (some salt) flag ≡ returned success)
      ↔ ((flag ≡ pos 0) × (hash_password_with_salt hash pw salt ≡ stored))
unfolding judge_login
judge_login_iff S hash pw stored salt (negsuc n) =
    (λ h. absurd (ground arith), λ h. absurd (ground arith))
judge_login_iff S hash pw stored salt (pos n) =
    ground (arith, bytes_eq_iff (hash_password_with_salt hash pw salt) stored)

-- Letters and digits.
abbrev pub IsAlnum : ℕ → Type 0
IsAlnum c = (b'0' ≤ c) × (c ≤ b'z')

All-append : (s t : Bytes) → All IsAlnum s → All IsAlnum t → All IsAlnum (s ++ t)
All-append [] t p q = q
All-append (c ∷ s) t p q = (p.0, All-append s t p.1 q)

alphanum-All : All IsAlnum alphanum
unfolding text
alphanum-All = omega arith

pick :
    (s : Bytes) (d : ℕ)
    → All IsAlnum s
    → d < length s
    → (c : ℕ) × (get_elem? s d ≡ some c) × IsAlnum c
pick [] d a h = absurd (omega arith)
pick (c ∷ s) zero a h = (c, refl, a.0)
pick (c ∷ s) (suc d) a h = pick s d a.1 (omega arith)

length-alphanum : length alphanum ≡ 62
unfolding text
length-alphanum = refl

letter-All : (d : ℕ) → d < 62 → (length (letter d) ≡ 1) × All IsAlnum (letter d)
unfolding letter text
letter-All d h =
    let (c, e, a) = pick alphanum d alphanum-All (omega (arith, length-alphanum)) in
    rw (e, letter) (refl, (a, tt))

letters-All :
    (draws : ℕ → ℕ)
    → ((i : ℕ) → draws i < 62)
    → (i n : ℕ) → (length (letters draws i n) ≡ n) × All IsAlnum (letters draws i n)
unfolding letters
letters-All draws h i zero = (refl, tt)
letters-All draws h i (suc n) =
    let (one, l) = letter-All (draws i) (h i) in
    let (rest, ls) = letters-All draws h (suc i) n in
    (
      omega (arith, length-append (letter (draws i)) (letters draws (suc i) n)),
      All-append (letter (draws i)) _ l ls,
    )

-- A token has the length that is asked for, and only characters from '0' to 'z', so never the
-- delimiter '|'.
pub generate_token_chars :
    (draws : ℕ → ℕ) (n : ℕ)
    → ((i : ℕ) → draws i < 62)
    → (length (generate_token draws n) ≡ n) × All IsAlnum (generate_token draws n)
unfolding generate_token
generate_token_chars draws n h = letters-All draws h 0 n
