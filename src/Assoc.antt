-- ===== src/Assoc.antt =====
-- std::unordered_map as an association list: `find`, `count`, `erase` and `m[k] = v`. The order of
-- the entries stands for the order of iteration, which the standard leaves open.
use codenames_cpp_vibecoding.Prelude.{
  suc, ◌≡◌, ◌↔◌, refl, arith, Bool, true, false, List, [], ◌∷◌, Option, none, some, if◌then◌else◌,
  length, Bool-cases, inl, inr,
}

module _ {ℓ κ} {K : Type ℓ} {V : Type κ} (eq : K → K → Bool) where
  unfoldable pub lookup : K → List (K × V) → Option V
  lookup k [] = none
  lookup k ((j, v) ∷ m) = let rest = lookup k m in if eq j k then some v else rest

  unfoldable pub contains : K → List (K × V) → Bool
  contains k [] = false
  contains k ((j, v) ∷ m) = let rest = contains k m in if eq j k then true else rest

  -- Only the first entry for the key: a map has one.
  unfoldable pub erase : K → List (K × V) → List (K × V)
  erase k [] = []
  erase k ((j, v) ∷ m) = let rest = erase k m in if eq j k then m else (j, v) ∷ rest

  unfoldable pub insert : K → V → List (K × V) → List (K × V)
  insert k v [] = (k, v) ∷ []
  insert k v ((j, w) ∷ m) = let rest = insert k v m in if eq j k then (j, v) ∷ m else (j, w) ∷ rest

  -- No key twice.
  abbrev pub Keys : List (K × V) → Type 0
  Keys [] = Unit {0}
  Keys ((k, v) ∷ m) = (contains k m ≡ false) × Keys m

  pub contains-lookup : (k : K) (m : List (K × V)) → contains k m ≡ false → lookup k m ≡ none
  unfolding contains lookup
  contains-lookup k [] h = refl
  contains-lookup k ((j, v) ∷ m) h = ground (arith, contains-lookup k m)

  pub lookup-contains :
      (k : K) (m : List (K × V)) {v : V} → lookup k m ≡ some v → contains k m ≡ true
  unfolding contains lookup
  lookup-contains k [] h = cc
  lookup-contains k ((j, w) ∷ m) {v} h = ground (arith, lookup-contains k m {v = v})

  pub contains-some :
      (k : K) (m : List (K × V)) → contains k m ≡ true → (v : V) × (lookup k m ≡ some v)
  unfolding contains lookup
  contains-some k [] h = absurd (ground arith)
  contains-some k ((j, w) ∷ m) h = elim (Bool-cases (eq j k)) [
    | inl e ↦ (w, rw e)
    | inr e ↦ rw e (contains-some k m (rw e at h))
  ]

  pub length-insert :
      (k : K) (v : V) (m : List (K × V))
      → contains k m ≡ false
      → length (insert k v m) ≡ suc (length m)
  unfolding contains insert
  length-insert k v [] h = refl
  length-insert k v ((j, w) ∷ m) h = ground (arith, length-insert k v m)

  pub length-erase :
      (k : K) (m : List (K × V)) → contains k m ≡ true → suc (length (erase k m)) ≡ length m
  unfolding contains erase
  length-erase k [] h = cc
  length-erase k ((j, w) ∷ m) h = ground (arith, length-erase k m)

  contains-erase :
      (j k : K) (m : List (K × V)) → contains j m ≡ false → contains j (erase k m) ≡ false
  unfolding contains erase
  contains-erase j k [] h = refl
  contains-erase j k ((i, w) ∷ m) h = ground (arith, contains-erase j k m)

  pub erase-Keys : (k : K) (m : List (K × V)) → Keys m → Keys (erase k m)
  unfolding erase
  erase-Keys k [] h = h
  erase-Keys k ((j, w) ∷ m) h = ground (arith, erase-Keys k m, contains-erase j k m)

module _ {ℓ κ} {K : Type ℓ} {V : Type κ} (eq : K → K → Bool)
    (eq_iff : (a b : K) → (eq a b ≡ true) ↔ (a ≡ b)) where
  pub lookup-insert :
      (new asked : K) (v : V) (entries : List (K × V))
      → lookup eq asked (insert eq new v entries)
        ≡ (if eq new asked then some v else lookup eq asked entries)
  unfolding lookup insert
  lookup-insert new asked v [] = refl
  lookup-insert new asked v ((old, u) ∷ entries) =
      ground (
        arith,
        lookup-insert new asked v entries,
        eq_iff new asked,
        eq_iff old new,
        eq_iff old asked,
      )

  contains-insert :
      (k j : K) (v : V) (m : List (K × V))
      → contains eq j (insert eq k v m) ≡ (if eq k j then true else contains eq j m)
  unfolding contains insert
  contains-insert k j v [] = refl
  contains-insert k j v ((i, w) ∷ m) =
      ground (arith, eq_iff k j, eq_iff i k, eq_iff i j, contains-insert k j v m)

  pub insert-Keys : (k : K) (v : V) (m : List (K × V)) → Keys eq m → Keys eq (insert eq k v m)
  unfolding insert contains
  insert-Keys k v [] h = (refl, tt)
  insert-Keys k v ((j, w) ∷ m) h =
      ground (arith, insert-Keys k v m, contains-insert k j v m, eq_iff j k, eq_iff k j)

  pub lookup-erase :
      (k j : K) (m : List (K × V))
      → Keys eq m
      → lookup eq j (erase eq k m) ≡ (if eq k j then none else lookup eq j m)
  unfolding lookup erase
  lookup-erase k j [] h = ground arith
  lookup-erase k j ((i, w) ∷ m) h =
      ground (arith, eq_iff k j, eq_iff i k, eq_iff i j, lookup-erase k j m, contains-lookup eq j m)
