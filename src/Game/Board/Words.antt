-- ===== src/Game/Board/Words.antt =====
-- LoadWordList always fills the 25 slots, and never with an empty word.
use codenames_cpp_vibecoding.Prelude.{
  ℕ, zero, suc, ◌+◌, ◌-◌, ◌≤◌, ◌≡◌, refl, arith, false, List, [], ◌∷◌, ◌++◌, Option, none, some,
  length, length-append, All, Bool-cases, inl, inr,
}
use codenames_cpp_vibecoding.Text.{Bytes, is_empty, text, to_string_ℕ}
use codenames_cpp_vibecoding.Game.{Game, max_cards}
use codenames_cpp_vibecoding.Game.Board.{
  strip_cr, read_words, getlines, default_words, fill_words, load_word_list,
}

abbrev pub NotEmpty : Bytes → Type 0
NotEmpty word = is_empty word ≡ false

length-read_words : (n : ℕ) (lines : List Bytes) → length (read_words n lines) ≤ n
unfolding read_words
length-read_words zero lines = omega arith
length-read_words (suc n) [] = omega arith
length-read_words (suc n) (l ∷ lines) =
    ground (arith, length-read_words (suc n) lines, length-read_words n lines)

read_words-All : (n : ℕ) (lines : List Bytes) → All NotEmpty (read_words n lines)
unfolding read_words
read_words-All zero lines = tt
read_words-All (suc n) [] = tt
read_words-All (suc n) (l ∷ lines) = elim (Bool-cases (is_empty (strip_cr l))) [
  | inl e ↦ rw e (read_words-All (suc n) lines)
  | inr e ↦ rw e (e, read_words-All n lines)
]

length-default_words : (i n : ℕ) → length (default_words i n) ≡ n
unfolding default_words
length-default_words i zero = refl
length-default_words i (suc n) = ground (arith, length-default_words (suc i) n)

default_words-All : (i n : ℕ) → All NotEmpty (default_words i n)
unfolding default_words
default_words-All i zero = tt
default_words-All i (suc n) = (named i, default_words-All (suc i) n)
  where
    named : (i : ℕ) → NotEmpty (text "단어" ++ to_string_ℕ (i + 1))
    named i = unfold text is_empty in refl

All-append : (xs ys : List Bytes) → All NotEmpty xs → All NotEmpty ys → All NotEmpty (xs ++ ys)
All-append [] ys p q = q
All-append (x ∷ xs) ys p q = (p.0, All-append xs ys p.1 q)

length-fill_words : (ws : List Bytes) → length ws ≤ max_cards → length (fill_words ws) ≡ max_cards
unfolding fill_words
length-fill_words ws h = omega (
  arith,
  length-append ws (default_words (length ws) (max_cards - length ws)),
  length-default_words (length ws) (max_cards - length ws),
)

-- Whatever the file holds, and also when it does not open, there are 25 words afterwards, and none
-- is empty.
pub load_word_list_full :
    (file : Option Bytes) (g : Game)
    → (length (load_word_list file g).0.word_list ≡ max_cards)
      × All NotEmpty (load_word_list file g).0.word_list
unfolding load_word_list
load_word_list_full none g = (length-default_words 0 max_cards, default_words-All 0 max_cards)
load_word_list_full (some content) g =
    let words = read_words max_cards (getlines [] content) in
    (
      length-fill_words words (length-read_words max_cards (getlines [] content)),
      All-append words _ (read_words-All max_cards (getlines [] content))
          (default_words-All (length words) (max_cards - length words)),
    )
