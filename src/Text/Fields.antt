-- ===== src/Text/Fields.antt =====
-- Laws of the text operations: equality, prefixes, and the split at a delimiter.
use codenames_cpp_vibecoding.Prelude.{
  ℕ, ◌==◌, ◌≡◌, refl, ◌≢◌, ◌↔◌, true, [], ◌∷◌, ◌++◌, some, none, arith, All, drop, length,
  Bool-cases, Option-cases, inl, inr,
}
use codenames_cpp_vibecoding.Text.{Bytes, bytes_eq, starts_with, split_at}

pub bytes_eq_refl : (s : Bytes) → bytes_eq s s ≡ true
unfolding bytes_eq
bytes_eq_refl [] = refl
bytes_eq_refl (c ∷ s) = ground (arith, bytes_eq_refl s)

pub bytes_eq_sound : (s t : Bytes) → bytes_eq s t ≡ true → s ≡ t
unfolding bytes_eq
bytes_eq_sound [] [] h = refl
bytes_eq_sound [] (d ∷ t) h = cc
bytes_eq_sound (c ∷ s) [] h = cc
bytes_eq_sound (c ∷ s) (d ∷ t) h = ground (arith, bytes_eq_sound s t)

pub bytes_eq_iff : (s t : Bytes) → (bytes_eq s t ≡ true) ↔ (s ≡ t)
bytes_eq_iff s t = (bytes_eq_sound s t, λ e. rw e (bytes_eq_refl t))

pub starts_with-append : (p s : Bytes) → starts_with p (p ++ s) ≡ true
unfolding starts_with
starts_with-append [] s = refl
starts_with-append (c ∷ p) s = ground (arith, starts_with-append p s)

pub drop-append : (p s : Bytes) → drop (length p) (p ++ s) ≡ s
drop-append [] s = refl
drop-append (c ∷ p) s = drop-append p s

-- The byte does not stand in the text.
abbrev pub Lacks : ℕ → Bytes → Type 0
Lacks c = All (λ d. d ≢ c)

-- The split is at the first delimiter.
pub split_at-append : (c : ℕ) (a b : Bytes) → Lacks c a → split_at c (a ++ c ∷ b) ≡ some (a, b)
unfolding split_at
split_at-append c [] b h = ground arith
split_at-append c (d ∷ a) b h = ground (arith, split_at-append c a b h.1)

pub split_at-none : (c : ℕ) (a : Bytes) → Lacks c a → split_at c a ≡ none
unfolding split_at
split_at-none c [] h = refl
split_at-none c (d ∷ a) h = ground (arith, split_at-none c a h.1)

pub split_at-none-Lacks : (c : ℕ) (a : Bytes) → split_at c a ≡ none → Lacks c a
unfolding split_at
split_at-none-Lacks c [] e = tt
split_at-none-Lacks c (d ∷ a) e = elim (Bool-cases (d == c)) [
  | inl h ↦ absurd (ground (arith, h))
  | inr h ↦ elim (Option-cases (split_at c a)) [
    | inl e2 ↦ (λ q. ground (arith, h, q), split_at-none-Lacks c a e2)
    | inr (x, e2) ↦ absurd (ground (arith, h, e2))
  ]
]
