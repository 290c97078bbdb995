-- ===== src/Game/Board.antt =====
-- GameManager::LoadWordList and AssignCards of CodeNamesServer/src/GameManager.cpp. The file system
-- and the random generator are arguments: what opening the file gives, and how `std::shuffle`
-- reorders the card types.
pub mod Words
pub mod Deal
use codenames_cpp_vibecoding.Prelude.{
  ℕ, zero, suc, ◌+◌, ◌-◌, ◌==◌, Bool, true, false, List, [], ◌∷◌, ◌++◌, Option, none, some,
  if◌then◌else◌, length, replicate,
}
use codenames_cpp_vibecoding.Text.{Bytes, text, is_empty, to_string_ℕ}
use codenames_cpp_vibecoding.Game.{
  Game, GameCard, CardType, red_card, blue_card, neutral, assassin, max_cards, red_cards,
  blue_cards, neutral_cards, assassin_cards,
}

-- The lines that std::getline reads one after another: a last line with no newline counts unless
-- it is empty.
getlines : Bytes → Bytes → List Bytes
getlines [] [] = []
getlines (c ∷ line) [] = (c ∷ line) ∷ []
getlines line (c ∷ s) =
    let next = getlines [] s in
    let longer = getlines (line ++ c ∷ []) s in if c == 10 then line ∷ next else longer

-- `if (!line.empty() && line.back() == '\r') line.pop_back();`
strip_cr : Bytes → Bytes
strip_cr [] = []
strip_cr (c ∷ []) = if c == 13 then [] else c ∷ []
strip_cr (c ∷ d ∷ s) = c ∷ strip_cr (d ∷ s)

-- The reading loop, with the number of slots still free: `count < MAX_CARDS`.
read_words : ℕ → List Bytes → List Bytes
unfolding strip_cr
read_words zero lines = []
read_words (suc room) [] = []
read_words (suc room) (line ∷ lines) =
    let word = strip_cr line in
    let skipped = read_words (suc room) lines in
    let stored = word ∷ read_words room lines in if is_empty word then skipped else stored

-- `"단어" + std::to_string(i + 1)` for the slots from `i` on.
default_words : ℕ → ℕ → List Bytes
default_words i zero = []
default_words i (suc n) = (text "단어" ++ to_string_ℕ (i + 1)) ∷ default_words (suc i) n

fill_words : List Bytes → List Bytes
unfolding default_words
fill_words words = words ++ default_words (length words) (max_cards - length words)

-- `none` for a file that does not open. All 25 slots are written, whatever they held.
unfoldable pub load_word_list : Option Bytes → Game → Game × Bool
unfolding read_words getlines default_words fill_words
load_word_list none g = (record g { word_list = default_words 0 max_cards }, false)
load_word_list (some content) g =
    (record g { word_list = fill_words (read_words max_cards (getlines [] content)) }, true)

-- The vector before it is shuffled.
abbrev pub card_types : List CardType
card_types =
    replicate red_cards red_card
    ++ (replicate blue_cards blue_card
        ++ (replicate neutral_cards neutral ++ replicate assassin_cards assassin))

-- The last loop, over the words and the shuffled types.
deal : List Bytes → List CardType → List GameCard
deal [] types = []
deal (word ∷ words) [] = []
deal (word ∷ words) (type ∷ types) =
    record { word = word; card_type = type; is_used = false } ∷ deal words types

unfoldable pub assign_cards : (List CardType → List CardType) → Game → Game
unfolding deal
assign_cards shuffle g = record g { cards = deal g.word_list (shuffle card_types) }
