-- ===== src/Client/Fields/Reading.antt =====
-- ParseField finds the fields of a packet by their number, and starts again where there are too few.
use codenames_cpp_vibecoding.Prelude.{
  ℕ, zero, suc, ◌+◌, ◌<◌, ◌≡◌, refl, ◌∙◌, ap, arith, false, List, [], ◌∷◌, ◌++◌, none, some, All,
  drop, length, get_elem?,
}
use codenames_cpp_vibecoding.Text.{Bytes, pipe, is_empty, split_at}
use codenames_cpp_vibecoding.Text.Fields.{Lacks, split_at-append, split_at-none}
use codenames_cpp_vibecoding.Protocol.{fields}
use codenames_cpp_vibecoding.Client.Fields.{skip_fields, until_pipe, parse_field}

-- Fields with a delimiter between each two.
abbrev pub join : List Bytes → Bytes
join [] = []
join (f ∷ []) = f
join (f ∷ g ∷ fs) = f ++ pipe ∷ join (g ∷ fs)

abbrev pub AllLack : List Bytes → Type 0
AllLack = All (Lacks pipe)

-- There is a last field, and it is not empty.
abbrev pub EndsFull : List Bytes → Type 0
EndsFull [] = ⊥
EndsFull (f ∷ []) = is_empty f ≡ false
EndsFull (f ∷ g ∷ fs) = EndsFull (g ∷ fs)

pub fields-join : (f : Bytes) (fs : List Bytes) → fields (f ∷ fs) ≡ pipe ∷ join (f ∷ fs)
unfolding fields
fields-join f [] = ap (λ s. pipe ∷ s) (append_empty f)
  where
    append_empty : (s : Bytes) → s ++ [] ≡ s
    append_empty [] = refl
    append_empty (c ∷ s) = ap (λ t. c ∷ t) (append_empty s)
fields-join f (g ∷ fs) = ap (λ s. pipe ∷ (f ++ s)) (fields-join g fs)

skip_step :
    (whole rest a b : Bytes) (n : ℕ)
    → split_at pipe rest ≡ some (a, b)
    → skip_fields whole (suc n) rest ≡ skip_fields whole n b
unfolding skip_fields split_at
skip_step whole [] a b n e = cc
skip_step whole (c ∷ rest) a b n e = rw (e, skip_fields) refl

skip_last :
    (whole rest : Bytes) (n : ℕ)
    → is_empty rest ≡ false
    → split_at pipe rest ≡ none
    → skip_fields whole (suc n) rest ≡ skip_fields whole n whole
unfolding skip_fields is_empty
skip_last whole [] n full e = cc
skip_last whole (c ∷ rest) n full e = rw (e, skip_fields) refl

skip_fields-join :
    (whole : Bytes) (n : ℕ) (fs : List Bytes)
    → n < length fs
    → AllLack fs
    → skip_fields whole n (join fs) ≡ some (join (drop n fs))
unfolding skip_fields
skip_fields-join whole n [] h l = absurd (omega arith)
skip_fields-join whole zero (f ∷ fs) h l = refl
skip_fields-join whole (suc n) (f ∷ []) h l = absurd (omega arith)
skip_fields-join whole (suc n) (f ∷ g ∷ fs) h l =
    skip_step whole (join (f ∷ g ∷ fs)) f (join (g ∷ fs)) n
      (split_at-append pipe f (join (g ∷ fs)) l.0)
    ∙ skip_fields-join whole n (g ∷ fs) (omega arith) l.1

skip_fields-all :
    (whole : Bytes) (i : ℕ) (fs : List Bytes)
    → AllLack fs
    → EndsFull fs
    → skip_fields whole (length fs + i) (join fs) ≡ skip_fields whole i whole
skip_fields-all whole i [] l e = absurd e
skip_fields-all whole i (f ∷ []) l e =
    ap (λ (n : ℕ). skip_fields whole n f) one_more
    ∙ skip_last whole f i e (split_at-none pipe f l.0)
  where
    one_more : 1 + i ≡ suc i
    one_more = omega arith
skip_fields-all whole i (f ∷ g ∷ fs) l e =
    ap (λ (n : ℕ). skip_fields whole n (join (f ∷ g ∷ fs))) one_more
    ∙ skip_step whole (join (f ∷ g ∷ fs)) f (join (g ∷ fs)) (length (g ∷ fs) + i)
        (split_at-append pipe f (join (g ∷ fs)) l.0)
    ∙ skip_fields-all whole i (g ∷ fs) l.1 e
  where
    one_more : suc (length (g ∷ fs)) + i ≡ suc (length (g ∷ fs) + i)
    one_more = omega arith

until_pipe-join : (f : Bytes) (fs : List Bytes) → Lacks pipe f → until_pipe (join (f ∷ fs)) ≡ f
unfolding until_pipe
until_pipe-join f [] l = rw (split_at-none pipe f l, until_pipe) refl
until_pipe-join f (g ∷ fs) l = rw (split_at-append pipe f (join (g ∷ fs)) l, until_pipe) refl

until_pipe-drop :
    (fs : List Bytes) (n : ℕ) (f : Bytes)
    → get_elem? fs n ≡ some f
    → AllLack fs
    → until_pipe (join (drop n fs)) ≡ f
until_pipe-drop [] n f e l = cc
until_pipe-drop (g ∷ fs) zero f e l = until_pipe-join g fs l.0 ∙ cc
until_pipe-drop (g ∷ fs) (suc n) f e l = until_pipe-drop fs n f e l.1

pub get_elem?-lt {ℓ} :
    {A : Type ℓ} (xs : List A) (n : ℕ) {x : A} → get_elem? xs n ≡ some x → n < length xs
get_elem?-lt [] n e = cc
get_elem?-lt (y ∷ xs) zero e = omega arith
get_elem?-lt (y ∷ xs) (suc n) e = omega (arith, get_elem?-lt xs n e)

pub parse_field_at :
    (fs : List Bytes) (n : ℕ) (f : Bytes)
    → get_elem? fs n ≡ some f
    → AllLack fs
    → parse_field (join fs) n ≡ f
unfolding parse_field
parse_field_at fs n f e l =
    rw (skip_fields-join (join fs) n fs (get_elem?-lt fs n e) l, parse_field)
      (until_pipe-drop fs n f e l)

-- Of fields without delimiters, joined by delimiters, ParseField gives the one with the number it
-- is asked for. Asked for a number beyond the last one, it begins again with the first, if the last
-- field is not empty: it never reports that a field is missing.
pub parse_field-join :
    (fs : List Bytes)
    → AllLack fs
    → ((n : ℕ) (f : Bytes) → get_elem? fs n ≡ some f → parse_field (join fs) n ≡ f)
      × (EndsFull fs → (i : ℕ) → parse_field (join fs) (length fs + i) ≡ parse_field (join fs) i)
unfolding parse_field
parse_field-join fs l = (
  λ n f e. parse_field_at fs n f e l,
  λ full i. rw (skip_fields-all (join fs) i fs l full, parse_field) refl,
)
