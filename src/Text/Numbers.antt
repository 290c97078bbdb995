-- ===== src/Text/Numbers.antt =====
-- A printed number as a field of a packet: it is read back, it is not empty and has no delimiter.
use codenames_cpp_vibecoding.Prelude.{
  ℕ, zero, suc, ◌≡◌, ◌≤◌, ◌<◌, ◌+◌, ◌*◌, ◌/◌, ◌%◌, ltb, ◌==◌, refl, subst, arith, Bool, true, false,
  [], ◌∷◌, Option, none, some, if◌then◌else◌, All, ℤ, pos, negsuc, length, length-append,
  Bool-cases, inl, inr,
}
use codenames_cpp_vibecoding.Text.{
  Bytes, is_empty, pipe, digits, to_string_ℕ, to_string, stoi, max_int, read_magnitude, read_signed,
  skip_spaces, negate,
}
use codenames_cpp_vibecoding.Text.Fields.{Lacks}
use codenames_cpp_vibecoding.Text.Decimal.{IsInt, IsDigit, digits-All, digits_cons, stoi-to_string}

pub record Number (s : Bytes) (n : ℤ) : Type 0 where
  pub reads : stoi s ≡ some n
  pub full : is_empty s ≡ false
  pub clean : Lacks pipe s

IsDigit-Lacks : (s : Bytes) → All IsDigit s → Lacks pipe s
IsDigit-Lacks [] a = tt
IsDigit-Lacks (c ∷ s) a = (λ e. absurd (omega arith), IsDigit-Lacks s a.1)

digits-full : (f n : ℕ) → is_empty (digits (suc f) n) ≡ false
unfolding is_empty
digits-full f n = let (c, s, e) = digits_cons f n in rw e refl

pub to_string-Number : (n : ℤ) → IsInt n → Number (to_string n) n
unfolding to_string to_string_ℕ is_empty
to_string-Number (pos n) h = record {
  reads = stoi-to_string (pos n) h;
  full = digits-full n n;
  clean = IsDigit-Lacks (digits (suc n) n) (digits-All (suc n) n);
}
to_string-Number (negsuc n) h = record {
  reads = stoi-to_string (negsuc n) h;
  full = refl;
  clean = (
    λ e. absurd (omega arith),
    IsDigit-Lacks (digits (suc (suc n)) (suc n)) (digits-All (suc (suc n)) (suc n)),
  );
}

pub to_string_ℕ-Number : (n : ℕ) → n ≤ max_int → Number (to_string_ℕ n) (pos n)
unfolding to_string
to_string_ℕ-Number n h = to_string-Number (pos n) h

-- 10 ^ (k + 1)
pow_10 : ℕ → ℕ
pow_10 zero = 10
pow_10 (suc k) = 10 * pow_10 k

digits-short : (k f n : ℕ) → n < pow_10 k → length (digits f n) ≤ suc k
unfolding digits pow_10
digits-short zero zero n h = omega arith
digits-short (suc k) zero n h = omega arith
digits-short zero (suc f) n h = ground arith
digits-short (suc k) (suc f) n h = elim (Bool-cases (ltb n 10)) [
  | inl e ↦ rw e (omega arith)
  | inr e ↦ rw e (
      omega (
        arith,
        length-append (digits f (n / 10)) ((b'0' + n % 10) ∷ []),
        digits-short k f (n / 10) (omega arith),
      ))
]

-- An `int` is printed in at most eleven bytes.
pub to_string-short : (n : ℤ) → IsInt n → length (to_string n) ≤ 11
unfolding to_string to_string_ℕ pow_10
to_string-short (pos n) h = omega (arith, digits-short 9 (suc n) n (omega arith))
to_string-short (negsuc n) h = omega (arith, digits-short 9 (suc (suc n)) (suc n) (omega arith))

pub to_string_ℕ-short : (n : ℕ) → n ≤ max_int → length (to_string_ℕ n) ≤ 11
unfolding to_string
to_string_ℕ-short n h = to_string-short (pos n) h

read_magnitude_small : (limit : ℕ) (s : Bytes) (n : ℕ) → read_magnitude limit s ≡ some n → n ≤ limit
unfolding read_magnitude
read_magnitude_small limit [] n e = cc
read_magnitude_small limit (c ∷ s) n e = ground arith

negate-IsInt : (n : ℕ) → n ≤ suc max_int → IsInt (negate n)
negate-IsInt zero h = omega arith
negate-IsInt (suc n) h = omega arith

either_branch :
    {R : Type 0} (b : Bool) (x y : Option ℤ) (n : ℤ)
    → (if b then x else y) ≡ some n
    → (x ≡ some n → R)
    → (y ≡ some n → R)
    → R
either_branch true x y n e f g = f e
either_branch false x y n e f g = g e

number_read :
    (o : Option ℕ) (f : ℕ → ℤ) (n : ℤ)
    → (elim o [ none ↦ none | some k ↦ some (f k) ]) ≡ some n
    → ((k : ℕ) → o ≡ some k → IsInt (f k))
    → IsInt n
number_read none f n e h = cc
number_read (some k) f n e h = let same : f k ≡ n = cc in subst IsInt same (h k refl)

read_signed-IsInt : (s : Bytes) (n : ℤ) → read_signed s ≡ some n → IsInt n
unfolding read_signed
read_signed-IsInt [] n e = cc
read_signed-IsInt (c ∷ s) n e =
    either_branch (c == b'-') _ _ n e
      (λ q.
        number_read (read_magnitude (suc max_int) s) negate n q
          (λ k m. negate-IsInt k (read_magnitude_small (suc max_int) s k m)))
      (λ r.
        either_branch (c == b'+') _ _ n r
          (λ q.
            number_read (read_magnitude max_int s) pos n q
              (λ k m. read_magnitude_small max_int s k m))
          (λ q.
            number_read (read_magnitude max_int (c ∷ s)) pos n q
              (λ k m. read_magnitude_small max_int (c ∷ s) k m)))

-- What std::stoi reads is an `int`.
pub stoi-IsInt : (s : Bytes) (n : ℤ) → stoi s ≡ some n → IsInt n
unfolding stoi
stoi-IsInt s n e = read_signed-IsInt (skip_spaces s) n e
