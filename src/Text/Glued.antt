-- ===== src/Text/Glued.antt =====
-- `std::stoi` on a printed number with something behind it.
use codenames_cpp_vibecoding.Prelude.{
  ℕ, suc, ◌+◌, ◌-◌, ◌*◌, ◌≤◌, ◌≡◌, refl, ◌∙◌, arith, false, [], ◌∷◌, ◌++◌, some, All, pos,
}
use codenames_cpp_vibecoding.Text.{
  Bytes, is_empty, pipe, is_digit, digits, to_string_ℕ, read_digits, stoi, max_int,
}
use codenames_cpp_vibecoding.Text.Fields.{Lacks}
use codenames_cpp_vibecoding.Text.Decimal.{IsDigit, digits-All, digits_cons, read_digits-digits}
use codenames_cpp_vibecoding.Text.Numbers.{Number, to_string_ℕ-Number}

read_digits-append :
    (s : Bytes) (n c : ℕ) (t : Bytes)
    → All IsDigit s
    → is_digit c ≡ false
    → read_digits n (s ++ c ∷ t) ≡ read_digits n s
unfolding read_digits
read_digits-append [] n c t a h = ground arith
read_digits-append (d ∷ s) n c t a h =
    ground (arith, read_digits-append s (n * 10 + (d - 48)) c t a.1 h)

-- Only the first character need be a digit.
stoi_first :
    (n c : ℕ) (s : Bytes)
    → n ≤ max_int
    → IsDigit c
    → read_digits 0 (c ∷ s) ≡ n
    → stoi (c ∷ s) ≡ some (pos n)
unfolding stoi
stoi_first n c s h a e = ground arith

stoi-append :
    (n c : ℕ) (t : Bytes)
    → n ≤ max_int
    → is_digit c ≡ false
    → stoi (to_string_ℕ n ++ c ∷ t) ≡ some (pos n)
unfolding to_string_ℕ
stoi-append n c t h k =
    let (d, s, e) = digits_cons n n in
    let all = digits-All (suc n) n in
    let value =
      read_digits-append (digits (suc n) n) 0 c t all k
      ∙ read_digits-digits (suc n) n (omega arith) in
    rw e (stoi_first n d (s ++ c ∷ t) h (front e all) (rw e at value))
  where
    front : {s : Bytes} {d : ℕ} {r : Bytes} → s ≡ d ∷ r → All IsDigit s → IsDigit d
    front e a = (rw e at a).0

Lacks-append : (c : ℕ) (s t : Bytes) → Lacks c s → Lacks c t → Lacks c (s ++ t)
Lacks-append c [] t a b = b
Lacks-append c (d ∷ s) t a b = (a.0, Lacks-append c s t a.1 b)

full-append : (s t : Bytes) → is_empty s ≡ false → is_empty (s ++ t) ≡ false
unfolding is_empty
full-append [] t h = cc
full-append (c ∷ s) t h = refl

-- A number with a text behind it that does not begin with a digit is that number still.
pub glued-Number :
    (n c : ℕ) (t : Bytes)
    → n ≤ max_int
    → is_digit c ≡ false
    → Lacks pipe (c ∷ t)
    → Number (to_string_ℕ n ++ c ∷ t) (pos n)
glued-Number n c t h k l =
    let number : Number (to_string_ℕ n) (pos n) = to_string_ℕ-Number n h in
    record {
      reads = stoi-append n c t h k;
      full = full-append (to_string_ℕ n) (c ∷ t) number.full;
      clean = Lacks-append pipe (to_string_ℕ n) (c ∷ t) number.clean l;
    }
