-- ===== src/Outcome.antt =====
-- Calls with undefined behaviour: a std::mutex locked again by the thread that holds it (it may block
-- for ever or throw std::system_error), and a std::string built from a null pointer.
use codenames_cpp_vibecoding.Prelude.{Bool, true, false, Option, none, some, ◌≡◌, refl}

pub data Outcome {ℓ} (A : Type ℓ) : Type ℓ where
  returned : A → Outcome A
  relocked : Outcome A
  crash : Outcome A

infixl 5 ◌>>=◌
abbrev pub ◌>>=◌ {ℓ κ} : {A : Type ℓ} {B : Type κ} → Outcome A → (A → Outcome B) → Outcome B
returned a >>= f = f a
relocked >>= f = relocked
crash >>= f = crash

-- std::lock_guard on a std::mutex: `held` tells whether this thread holds it already, for which C++
-- defines no behaviour. Nothing is said of what follows.
abbrev pub locking {ℓ} : {A : Type ℓ} → Bool → Outcome A → Outcome A
locking true body = relocked
locking false body = body

-- `std::string s = p;` for a `const char*` that may be null.
abbrev pub string_of {ℓ} : {A : Type ℓ} → Option A → Outcome A
string_of none = crash
string_of (some a) = returned a

-- The call comes back with a result that has the property, or dies on a null pointer; it never
-- locks a mutex that it holds.
abbrev pub Answers {ℓ} : {A : Type ℓ} → (A → Type 0) → Outcome A → Type 0
Answers P (returned a) = P a
Answers P relocked = ⊥
Answers P crash = Unit

pub Answers-bind {ℓ κ} :
    {A : Type ℓ} {B : Type κ} (P : A → Type 0) (Q : B → Type 0) (m : Outcome A) (f : A → Outcome B)
    → Answers P m
    → ((a : A) → m ≡ returned a → Answers Q (f a))
    → Answers Q (m >>= f)
Answers-bind P Q (returned a) f p k = k a refl
Answers-bind P Q relocked f p k = p
Answers-bind P Q crash f p k = tt

-- Nothing is said of the result.
abbrev pub Anything {ℓ} : {A : Type ℓ} → A → Type 0
Anything a = Unit
