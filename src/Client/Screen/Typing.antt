-- ===== src/Client/Screen/Typing.antt =====
-- What is typed into the input line and erased again, and the width of what is shown.
use codenames_cpp_vibecoding.Prelude.{
  ℕ, zero, suc, ◌+◌, ◌-◌, ◌/◌, ◌%◌, ◌≤◌, ◌<◌, ◌≡◌, refl, ◌∙◌, sym, ap, arith, true, false, [], ◌∷◌,
  ◌++◌, ltb, leb, length, length-append, get_elem?, take, Bool-cases, inl, inr, replicate,
}
use codenames_cpp_vibecoding.Text.{Bytes}
use codenames_cpp_vibecoding.Client.Screen.{
  is_continuation, continues_at, char_start, erase_char, encode_char, utf8_length, utf8_truncate,
  utf8_truncated, utf8_pad,
}

get_elem?-past : (s t : Bytes) (k : ℕ) → get_elem? (s ++ t) (length s + k) ≡ get_elem? t k
get_elem?-past [] t k = ap (get_elem? t) (omega arith)
get_elem?-past (c ∷ s) t k = ap (get_elem? (c ∷ (s ++ t))) shift ∙ get_elem?-past s t k
  where
    shift : suc (length s) + k ≡ suc (length s + k)
    shift = omega arith

plus_zero : (n : ℕ) → n ≡ n + 0
plus_zero n = omega arith

plus_suc : (n k : ℕ) → n + suc k ≡ suc (n + k)
plus_suc n k = omega arith

take-front : (s t : Bytes) → take (length s) (s ++ t) ≡ s
take-front [] t = refl
take-front (c ∷ s) t = ap (λ (r : Bytes). c ∷ r) (take-front s t)

-- The loop stops at a byte that starts a character, and passes the others.
char_start_here : (s : Bytes) (i : ℕ) → continues_at s i ≡ false → char_start s i ≡ i
unfolding char_start
char_start_here s zero e = refl
char_start_here s (suc i) e = rw (e, char_start) refl

char_start_back :
    (s : Bytes) (i : ℕ) → continues_at s (suc i) ≡ true → char_start s (suc i) ≡ char_start s i
unfolding char_start
char_start_back s i e = rw (e, char_start) refl

erase_char-length : (s : Bytes) (n : ℕ) → length s ≡ suc n → erase_char s ≡ take (char_start s n) s
unfolding erase_char
erase_char-length [] n e = absurd (omega arith)
erase_char-length (c ∷ s) n e = ap (λ (k : ℕ). take (char_start (c ∷ s) k) (c ∷ s)) (omega arith)

module _ (s : Bytes) (b : ℕ) (t : Bytes) (starts : is_continuation b ≡ false) where
  char_start-append :
      ((k : ℕ) → k < length t → continues_at t k ≡ true)
      → (k : ℕ) → k ≤ length t
      → char_start (s ++ b ∷ t) (length s + k) ≡ length s
  char_start-append goes zero h =
      ap (char_start (s ++ b ∷ t)) (omega arith) ∙ char_start_here (s ++ b ∷ t) (length s) here
    where
      here : continues_at (s ++ b ∷ t) (length s) ≡ false
      here =
          rw
            (
              ap (get_elem? (s ++ b ∷ t)) (plus_zero (length s)) ∙ get_elem?-past s (b ∷ t) 0,
              continues_at,
            )
            starts
  char_start-append goes (suc k) h =
      ap (char_start (s ++ b ∷ t)) (plus_suc (length s) k)
      ∙ char_start_back (s ++ b ∷ t) (length s + k) back
      ∙ char_start-append goes k (omega arith)
    where
      back : continues_at (s ++ b ∷ t) (suc (length s + k)) ≡ true
      back =
          rw
            (
              ap (get_elem? (s ++ b ∷ t)) (sym (plus_suc (length s) k))
                  ∙ get_elem?-past s (b ∷ t) (suc k),
              continues_at,
            )
            (goes k (omega arith))

  erase_char-append :
      ((k : ℕ) → k < length t → continues_at t k ≡ true) → erase_char (s ++ b ∷ t) ≡ s
  erase_char-append goes =
      erase_char-length (s ++ b ∷ t) (length s + length t) (omega (arith, length-append s (b ∷ t)))
      ∙ ap (λ (n : ℕ). take n (s ++ b ∷ t)) (char_start-append goes (length t) (omega arith))
      ∙ take-front s (b ∷ t)

-- Erasing takes back what was typed: behind a character of up to 16 bits that is typed into the
-- input line, the backspace leaves the line as it was, whatever stood there.
pub erase_char-encode_char : (s : Bytes) (c : ℕ) → c < 65536 → erase_char (s ++ encode_char c) ≡ s
unfolding encode_char
erase_char-encode_char s c h = elim (Bool-cases (ltb c 128)) [
  | inl e ↦
      rw (e, encode_char) (erase_char-append s c [] (ground arith) (λ k l. absurd (omega arith)))
  | inr e ↦ elim (Bool-cases (ltb c 2048)) [
    | inl e2 ↦
        rw (e, e2, encode_char)
          (erase_char-append s (192 + c / 64) ((128 + c % 64) ∷ []) (ground arith)
            (one (128 + c % 64) (ground arith)))
    | inr e2 ↦
        let small : ltb c 65536 ≡ true = ground arith in
        rw (e, e2, small, encode_char)
          (erase_char-append s (224 + c / 4096) ((128 + (c / 64) % 64) ∷ (128 + c % 64) ∷ [])
            (ground arith) (two (128 + (c / 64) % 64) (128 + c % 64) (ground arith) (ground arith)))
  ]
]
  where
    one : (x : ℕ) → is_continuation x ≡ true → (k : ℕ) → k < 1 → continues_at (x ∷ []) k ≡ true
    one x e zero h = e
    one x e (suc k) h = absurd (omega arith)

    two :
        (x y : ℕ)
        → is_continuation x ≡ true
        → is_continuation y ≡ true
        → (k : ℕ) → k < 2
        → continues_at (x ∷ y ∷ []) k ≡ true
    two x y e f zero h = e
    two x y e f (suc zero) h = f
    two x y e f (suc (suc k)) h = absurd (omega arith)

utf8_length-append : (s t : Bytes) → utf8_length (s ++ t) ≡ utf8_length s + utf8_length t
unfolding utf8_length
utf8_length-append [] t = omega arith
utf8_length-append (c ∷ s) t = ground (arith, utf8_length-append s t)

utf8_length-spaces : (n : ℕ) → utf8_length (replicate n b' ') ≡ n
unfolding utf8_length
utf8_length-spaces zero = refl
utf8_length-spaces (suc n) = ground (arith, utf8_length-spaces n)

utf8_length-truncate : (s : Bytes) (n : ℕ) → utf8_length (utf8_truncate s n) ≤ n
unfolding utf8_length utf8_truncate
utf8_length-truncate [] n = omega arith
utf8_length-truncate (c ∷ s) zero = ground (arith, utf8_length-truncate s zero)
utf8_length-truncate (c ∷ s) (suc n) =
    ground (arith, utf8_length-truncate s n, utf8_length-truncate s (suc n))

utf8_length-truncated : (s : Bytes) (n : ℕ) → utf8_length (utf8_truncated s n) ≤ n
unfolding utf8_truncated utf8_length
utf8_length-truncated s zero = omega arith
utf8_length-truncated s (suc n) = utf8_length-truncate s (suc n)

-- A text that is cut to a number of characters and then padded to that number has exactly that
-- many characters.
pub utf8_pad-truncated : (s : Bytes) (n : ℕ) → utf8_length (utf8_pad (utf8_truncated s n) n) ≡ n
unfolding utf8_pad
utf8_pad-truncated s n =
    let t = utf8_truncated s n in
    let short = utf8_length-truncated s n in
    elim (Bool-cases (leb n (utf8_length t))) [
      | inl e ↦ rw (e, utf8_pad) (ground arith)
      | inr e ↦
          rw (e, utf8_pad)
            (utf8_length-append t (replicate (n - utf8_length t) b' ')
              ∙ omega (arith, utf8_length-spaces (n - utf8_length t)))
    ]
