-- ===== src/Text/Decimal.antt =====
-- `std::stoi` reads back what `std::to_string` prints.
use codenames_cpp_vibecoding.Prelude.{
  ℕ, zero, suc, ◌+◌, ◌-◌, ◌*◌, ◌/◌, ◌%◌, ◌≤◌, ◌<◌, ◌≡◌, refl, ◌∙◌, [], ◌∷◌, ◌++◌, some, arith, ltb,
  Bool-cases, inl, inr, ℤ, pos, negsuc, All, length,
}
use codenames_cpp_vibecoding.Text.{
  Bytes, digits, to_string_ℕ, to_string, read_digits, stoi, max_int,
}

abbrev pub IsDigit : ℕ → Type 0
IsDigit c = (b'0' ≤ c) × (c ≤ b'9')

All-snoc : (s : Bytes) (c : ℕ) → All IsDigit s → IsDigit c → All IsDigit (s ++ c ∷ [])
All-snoc [] c a d = (d, tt)
All-snoc (x ∷ s) c a d = (a.0, All-snoc s c a.1 d)

pub digits-All : (f n : ℕ) → All IsDigit (digits f n)
unfolding digits
digits-All zero n = tt
digits-All (suc f) n = elim (Bool-cases (ltb n 10)) [
  | inl e ↦ rw e ((omega arith, ground arith), tt)
  | inr e ↦ rw e (All-snoc _ _ (digits-All f (n / 10)) (omega arith, omega arith))
]

read_digits_snoc :
    (s : Bytes) (n d : ℕ)
    → All IsDigit s
    → d < 10
    → read_digits n (s ++ (b'0' + d) ∷ []) ≡ read_digits n s * 10 + d
unfolding read_digits
read_digits_snoc [] n d a h = ground arith
read_digits_snoc (c ∷ s) n d a h = ground (arith, read_digits_snoc s (n * 10 + (c - 48)) d a.1)

pub read_digits-digits : (f n : ℕ) → n < f → read_digits 0 (digits f n) ≡ n
unfolding digits
read_digits-digits zero n h = absurd (omega arith)
read_digits-digits (suc f) n h = elim (Bool-cases (ltb n 10)) [
  | inl e ↦ rw e (unfold read_digits in ground arith)
  | inr e ↦ rw e (
      read_digits_snoc _ 0 (n % 10) (digits-All f (n / 10)) (omega arith)
      ∙ ground (arith, read_digits-digits f (n / 10)))
]

-- A digit string is not empty.
pub digits_cons : (f n : ℕ) → (c : ℕ) × (s : Bytes) × (digits (suc f) n ≡ c ∷ s)
unfolding digits
digits_cons f n = elim (Bool-cases (ltb n 10)) [
  | inl e ↦ (b'0' + n, [], rw e)
  | inr e ↦ rw e (front (digits f (n / 10)))
]
  where
    front : (t : Bytes) → (c : ℕ) × (s : Bytes) × (t ++ (b'0' + n % 10) ∷ [] ≡ c ∷ s)
    front [] = (b'0' + n % 10, [], refl)
    front (c ∷ t) = (c, t ++ (b'0' + n % 10) ∷ [], refl)

-- The values of a 32-bit `int`.
abbrev pub IsInt : ℤ → Type 0
IsInt (pos n) = n ≤ max_int
IsInt (negsuc n) = n ≤ max_int

stoi_digits :
    (n c : ℕ) (s : Bytes)
    → n ≤ max_int
    → All IsDigit (c ∷ s)
    → read_digits 0 (c ∷ s) ≡ n
    → stoi (c ∷ s) ≡ some (pos n)
unfolding stoi
stoi_digits n c s h a e = ground arith

stoi_minus :
    (n c : ℕ) (s : Bytes)
    → n ≤ max_int
    → All IsDigit (c ∷ s)
    → read_digits 0 (c ∷ s) ≡ suc n
    → stoi (b'-' ∷ c ∷ s) ≡ some (negsuc n)
unfolding stoi
stoi_minus n c s h a e = ground arith

-- Every 32-bit `int` that is printed by `std::to_string` is read back by `std::stoi`.
pub stoi-to_string : (n : ℤ) → IsInt n → stoi (to_string n) ≡ some n
unfolding to_string to_string_ℕ
stoi-to_string (pos n) h =
    let (c, s, e) = digits_cons n n in
    rw e (
      stoi_digits n c s h (subst_digits e (digits-All (suc n) n))
        (subst_read e (read_digits-digits (suc n) n (omega arith))))
  where
    subst_digits : {s t : Bytes} → s ≡ t → All IsDigit s → All IsDigit t
    subst_digits e a = rw e at a

    subst_read : {s t : Bytes} → s ≡ t → read_digits 0 s ≡ n → read_digits 0 t ≡ n
    subst_read e a = rw e at a
stoi-to_string (negsuc n) h =
    let (c, s, e) = digits_cons (suc n) (suc n) in
    rw e (
      stoi_minus n c s h (subst_digits e (digits-All (suc (suc n)) (suc n)))
        (subst_read e (read_digits-digits (suc (suc n)) (suc n) (omega arith))))
  where
    subst_digits : {s t : Bytes} → s ≡ t → All IsDigit s → All IsDigit t
    subst_digits e a = rw e at a

    subst_read : {s t : Bytes} → s ≡ t → read_digits 0 s ≡ suc n → read_digits 0 t ≡ suc n
    subst_read e a = rw e at a

-- How long a printed number is: no longer than a bound on its digits.
pub length-digits : (f k n : ℕ) → n < 10 → length (digits (suc f) n) ≡ 1
unfolding digits
length-digits f k n h = ground arith
