-- ===== src/Prelude/Counting.antt =====
-- Counting the elements of a list that pass a test, across a write and along a reordering.
use Prim.Native.Nat.{ℕ, zero, suc, ◌+◌, ◌≤◌}
use mathlib.Core.Path.{◌≡◌, refl, ◌∙◌}
use mathlib.Core.Bool.{Bool, true, false, ◌&&◌}
use mathlib.Core.List.{List, [], ◌∷◌, Perm, Permᴰ}
use mathlib.Core.Option.{some}
use mathlib.Core.Logic.{∥∥₁_elim}
use native.Mathlib.Omega.{arith}
use native.Mathlib.Nat.{ℕ_set}
use codenames_cpp_vibecoding.Prelude.Lists.{length, get_elem?, set, count_if}

abbrev pub bit : Bool → ℕ
bit true = 1
bit false = 0

module _ {ℓ} {A : Type ℓ} where
  pub count_if-set :
      (p : A → Bool) (xs : List A) (i : ℕ) {x : A} (v : A)
      → get_elem? xs i ≡ some x
      → count_if p (set xs i v) + bit (p x) ≡ count_if p xs + bit (p v)
  count_if-set p [] i v e = cc
  count_if-set p (y ∷ xs) zero v e = ground arith
  count_if-set p (y ∷ xs) (suc i) v e = ground (arith, count_if-set p xs i v e)

  pub count_if-le-length : (p : A → Bool) (xs : List A) → count_if p xs ≤ length xs
  count_if-le-length p [] = omega arith
  count_if-le-length p (x ∷ xs) = ground (arith, count_if-le-length p xs)

  -- A narrower test passes fewer.
  pub count_if_mono : (p q : A → Bool) (xs : List A) → count_if (λ x. p x && q x) xs ≤ count_if q xs
  count_if_mono p q [] = omega arith
  count_if_mono p q (x ∷ xs) = ground (arith, count_if_mono p q xs)

  count_if-permᴰ : (p : A → Bool) {xs ys : List A} → Permᴰ xs ys → count_if p xs ≡ count_if p ys
  count_if-permᴰ p Permᴰ.nil = refl
  count_if-permᴰ p (Permᴰ.cons e d) = rw e (ground (arith, count_if-permᴰ p d))
  count_if-permᴰ p (Permᴰ.swap e f) = rw (e, f) (ground arith)
  count_if-permᴰ p (Permᴰ.trans d e) = count_if-permᴰ p d ∙ count_if-permᴰ p e

  -- A reordering keeps the count.
  pub count_if-perm : (p : A → Bool) {xs ys : List A} → Perm xs ys → count_if p xs ≡ count_if p ys
  count_if-perm p h = ∥∥₁_elim h (ℕ_set _ _) (count_if-permᴰ p)

  length-permᴰ : {xs ys : List A} → Permᴰ xs ys → length xs ≡ length ys
  length-permᴰ Permᴰ.nil = refl
  length-permᴰ (Permᴰ.cons e d) = ground (arith, length-permᴰ d)
  length-permᴰ (Permᴰ.swap e f) = refl
  length-permᴰ (Permᴰ.trans d e) = length-permᴰ d ∙ length-permᴰ e

  pub length-perm : {xs ys : List A} → Perm xs ys → length xs ≡ length ys
  length-perm h = ∥∥₁_elim h (ℕ_set _ _) length-permᴰ
