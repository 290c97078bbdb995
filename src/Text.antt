-- ===== src/Text.antt =====
-- The parts of `std::string` and of <string> that the program uses: a text is its bytes.
-- `find`, `substr`, `std::to_string` and `std::stoi` are the standard library's.
pub mod Decimal
pub mod Fields
pub mod Numbers
pub mod Glued
use Prim.Native.Char.{code}
use codenames_cpp_vibecoding.Prelude.{
  ℕ, zero, suc, ◌+◌, ◌-◌, ◌*◌, ◌/◌, ◌%◌, ◌^◌, Bool, true, false, ◌&&◌, ◌||◌, List, [], ◌∷◌, ◌++◌,
  Option, none, some, String, ltb, leb, ◌==◌, if◌then◌else◌, take, drop, length, ℤ, pos, negsuc,
}

abbrev pub Bytes : Type 0
Bytes = List ℕ

abbrev code_points : String → List ℕ
code_points String.[] = []
code_points (String.◌∷◌ c s) = code c ∷ code_points s

-- One code point below 2^16 in UTF-8, the encoding of the source files.
utf8_char : ℕ → Bytes
utf8_char c =
    if ltb c 128
    then c ∷ []
    else if ltb c 2048
    then (192 + c / 64) ∷ (128 + c % 64) ∷ []
    else (224 + c / 4096) ∷ (128 + (c / 64) % 64) ∷ (128 + c % 64) ∷ []

utf8 : List ℕ → Bytes
utf8 [] = []
utf8 (c ∷ cs) = utf8_char c ++ utf8 cs

-- A string literal of the source.
unfoldable pub text : String → Bytes
unfolding utf8 utf8_char
text s = utf8 (code_points s)

abbrev pub pipe : ℕ
pipe = b'|'

unfoldable pub is_empty : Bytes → Bool
is_empty [] = true
is_empty (c ∷ s) = false

unfoldable pub bytes_eq : Bytes → Bytes → Bool
bytes_eq [] [] = true
bytes_eq [] (d ∷ t) = false
bytes_eq (c ∷ s) [] = false
bytes_eq (c ∷ s) (d ∷ t) = c == d && bytes_eq s t

-- `s.find(p) == 0`.
unfoldable pub starts_with : Bytes → Bytes → Bool
starts_with [] s = true
starts_with (c ∷ p) [] = false
starts_with (c ∷ p) (d ∷ s) = c == d && starts_with p s

-- `s.substr(0, i)` and `s.substr(i + 1)` for `i = s.find(c)`; `none` for npos.
unfoldable pub split_at : ℕ → Bytes → Option (Bytes × Bytes)
split_at c [] = none
split_at c (d ∷ s) =
    let rest = split_at c s in
    if d == c then some ([], s) else elim rest [ none ↦ none | some (a, b) ↦ some (d ∷ a, b) ]

-- The decimal digits of `n`, with fuel above `n`.
unfoldable pub digits : ℕ → ℕ → Bytes
digits zero n = []
digits (suc f) n =
    let rest = digits f (n / 10) in
    if ltb n 10 then (b'0' + n) ∷ [] else rest ++ (b'0' + n % 10) ∷ []

-- `std::to_string` of a number that is not negative, and of any `int`.
unfoldable pub to_string_ℕ : ℕ → Bytes
unfolding digits
to_string_ℕ n = digits (suc n) n

unfoldable pub to_string : ℤ → Bytes
unfolding to_string_ℕ
to_string (pos n) = to_string_ℕ n
to_string (negsuc n) = b'-' ∷ to_string_ℕ (suc n)

abbrev pub is_digit : ℕ → Bool
is_digit c = leb b'0' c && leb c b'9'

is_space : ℕ → Bool
is_space c = c == 32 || leb 9 c && leb c 13

skip_spaces : Bytes → Bytes
skip_spaces [] = []
skip_spaces (c ∷ s) = let rest = skip_spaces s in if is_space c then rest else c ∷ s

-- The value of the digits at the front, after those already read.
unfoldable pub read_digits : ℕ → Bytes → ℕ
read_digits n [] = n
read_digits n (c ∷ s) =
    let rest = read_digits (n * 10 + (c - b'0')) s in if is_digit c then rest else n

-- No digit: std::invalid_argument; above the limit: std::out_of_range.
read_magnitude : ℕ → Bytes → Option ℕ
read_magnitude limit [] = none
read_magnitude limit (c ∷ s) =
    if is_digit c
    then (let n = read_digits 0 (c ∷ s) in if leb n limit then some n else none)
    else none

abbrev pub max_int : ℕ
max_int = 2 ^ 31 - 1

-- -n
abbrev negate : ℕ → ℤ
negate zero = pos zero
negate (suc n) = negsuc n

read_signed : Bytes → Option ℤ
read_signed [] = none
read_signed (c ∷ s) =
    if c == b'-'
    then elim (read_magnitude (suc max_int) s) [ none ↦ none | some n ↦ some (negate n) ]
    else if c == b'+'
    then elim (read_magnitude max_int s) [ none ↦ none | some n ↦ some (pos n) ]
    else elim (read_magnitude max_int (c ∷ s)) [ none ↦ none | some n ↦ some (pos n) ]

-- `std::stoi`: leading blanks, a sign, digits; what follows the digits is ignored. Both exceptions
-- are derived from std::exception, and the callers do not tell them apart: `none`.
unfoldable pub stoi : Bytes → Option ℤ
unfolding skip_spaces is_space read_signed read_magnitude read_digits
stoi s = read_signed (skip_spaces s)
