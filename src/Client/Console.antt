-- ===== src/Client/Console.antt =====
-- CodeNamesClient/include/gui/ConsoleUtils.h and src/gui/ConsoleUtils.cpp: what is written to the
-- console, as the list of its calls. The console's handle and the size that
-- GetConsoleScreenBufferInfo answers are arguments.
pub mod Layout
use codenames_cpp_vibecoding.Prelude.{
  ℕ, zero, suc, ◌+◌, ◌-◌, ◌*◌, ◌/◌, ◌%◌, ◌^◌, Bool, if◌then◌else◌, List, [], ◌∷◌, ◌++◌, Option,
  none, some, ltb, leb, length, take, replicate, ℤ, pos, negsuc, ◌==◌, ◌||◌, false,
}
use codenames_cpp_vibecoding.Text.{Bytes}

-- ConsoleColor.
pub data Color : Type 0 where
  black blue green cyan red magenta yellow white gray : Color

unfoldable pub color_num : Color → ℕ
color_num black = 0
color_num blue = 1
color_num green = 2
color_num cyan = 3
color_num red = 4
color_num magenta = 5
color_num yellow = 6
color_num white = 7
color_num gray = 8

-- SetConsoleCursorPosition with two SHORTs, SetConsoleTextAttribute, and std::cout.
pub data Output : Type 0 where
  cursor : ℤ → ℤ → Output
  attributes : ℕ → Output
  written : Bytes → Output
  -- FillConsoleOutputCharacter and FillConsoleOutputAttribute, for a number of cells
  filled : ℕ → Output

-- Whether there is a handle, and dwSize.
pub record Console : Type 0 where
  pub handle : Bool
  pub columns : ℕ
  pub rows : ℕ

-- The signed number of `half * 2` values that n stands for modulo this number.
unfoldable pub signed : ℕ → ℕ → ℤ
signed half n = if ltb n half then pos n else negsuc (half * 2 - suc n)

-- The conversion of an int to a SHORT.
unfoldable pub to_short : ℤ → ℤ
unfolding signed
to_short (pos n) = signed 32768 (n % 65536)
to_short (negsuc n) = signed 32768 (65535 - n % 65536)

unfoldable pub set_cursor_position : Console → ℤ → ℤ → List Output
unfolding to_short
set_cursor_position k x y = if k.handle then cursor (to_short x) (to_short y) ∷ [] else []

unfoldable pub clear : Console → List Output
unfolding set_cursor_position
clear k =
    if k.handle then filled (k.columns * k.rows) ∷ set_cursor_position k (pos 0) (pos 0) else []

unfoldable pub set_text_color : Console → Color → Color → List Output
unfolding color_num
set_text_color k foreground background =
    if k.handle then attributes (color_num foreground + color_num background * 16) ∷ [] else []

unfoldable pub reset_text_color : Console → List Output
unfolding set_text_color
reset_text_color k = set_text_color k white black

unfoldable pub get_console_size : Console → ℕ × ℕ
get_console_size k = if k.handle then (k.columns, k.rows) else (80, 25)

unfoldable pub print_at : Console → ℤ → ℤ → Bytes → List Output
unfolding set_cursor_position
print_at k x y text = set_cursor_position k x y ++ written text ∷ []

unfoldable pub print_colored_at : Console → ℤ → ℤ → Bytes → Color → List Output
unfolding set_text_color print_at reset_text_color
print_colored_at k x y text color =
    set_text_color k color black ++ (print_at k x y text ++ reset_text_color k)

-- The difference is a size_t, since text.length() is one; half of it becomes an int.
unfoldable pub centered_x : ℕ → Bytes → ℤ
unfolding signed
centered_x width text = signed (2 ^ 31) ((((width + 2 ^ 64 - length text) % 2 ^ 64) / 2) % 2 ^ 32)

unfoldable pub print_centered : Console → ℤ → Bytes → Color → List Output
unfolding get_console_size centered_x print_colored_at
print_centered k y text color =
    print_colored_at k (centered_x (get_console_size k).0 text) y text color

abbrev space : ℕ
space = 32

-- substr behind the test of the length: a negative bound becomes a huge size_t.
unfoldable pub clip : ℤ → Bytes → Bytes
clip (pos n) s = take n s
clip (negsuc n) s = s

-- The blanks of the loops that fill a line up to a width.
unfoldable pub blanks : ℕ → ℤ → Bytes
blanks from (pos n) = replicate (n - from) space
blanks from (negsuc n) = []

-- x + n.
unfoldable pub right_of : ℤ → ℕ → ℤ
right_of (pos m) n = pos (m + n)
right_of (negsuc m) n = if leb n m then negsuc (m - n) else pos (n - suc m)

unfoldable pub draw_input_box : Console → ℤ → ℤ → ℤ → Bytes → List Output
unfolding clip blanks right_of set_text_color set_cursor_position reset_text_color
draw_input_box k x y width prompt =
    let display = clip width prompt in
    if k.handle
    then set_text_color k cyan black
      ++ (set_cursor_position k x y
          ++ (written display
              ∷ written (blanks (length display) width)
              ∷ (reset_text_color k ++ set_cursor_position k (right_of x (length display)) y)))
    else []

unfoldable pub clear_line : Console → ℤ → ℤ → ℤ → List Output
unfolding set_cursor_position blanks
clear_line k x y width =
    if k.handle
    then set_cursor_position k x y ++ (written (blanks 0 width) ∷ set_cursor_position k x y)
    else []

-- The bytes of the six signs of the border, which start with 0xE2 0x94.
abbrev sign : ℕ → Bytes
sign last = 226 ∷ 148 ∷ last ∷ []

-- A corner, a line, and a corner.
border_row : ℕ → ℕ → ℕ → List Output
border_row left right width =
    written (sign left) ∷ (replicate (width - 2) (written (sign 128)) ++ written (sign right) ∷ [])

-- width - 2.
unfoldable pub max_inner : ℕ → ℤ
max_inner zero = negsuc 1
max_inner (suc zero) = negsuc 0
max_inner (suc (suc n)) = pos n

unfoldable pub status_row : Console → ℕ → ℕ → Bytes → List Output
unfolding set_cursor_position clip blanks max_inner
status_row k width y status =
    let line = clip (max_inner width) status in
    set_cursor_position k (pos 1) (pos y)
    ++ (written line ∷ written (blanks (length line) (max_inner width)) ∷ [])

-- The loop over the status lines, from row y on.
unfoldable pub status_rows : Console → ℕ → ℕ → ℕ → List Bytes → List Output
unfolding status_row
status_rows k width height y [] = []
status_rows k width height y (s ∷ ss) =
    let rest = status_rows k width height (suc y) ss in
    if ltb (suc y) height then status_row k width y s ++ rest else []

-- The loop of the two sides, for a number of rows from row y on; x is width - 1.
unfoldable pub sides : Console → ℤ → ℕ → ℕ → List Output
unfolding set_cursor_position
sides k x y zero = []
sides k x y (suc n) =
    set_cursor_position k (pos 0) (pos y)
    ++ (written (sign 130)
        ∷ (set_cursor_position k x (pos y) ++ (written (sign 130) ∷ sides k x (suc y) n)))

-- n - 1.
abbrev pub before : ℕ → ℤ
before zero = negsuc 0
before (suc n) = pos n

unfoldable pub draw_border : Console → List Bytes → List Output
unfolding get_console_size set_text_color set_cursor_position border_row status_rows sides
    reset_text_color
draw_border k lines =
    let (width, height) = get_console_size k in
    set_text_color k cyan black
    ++ (set_cursor_position k (pos 0) (pos 0)
        ++ (border_row 140 144 width
            ++ (status_rows k width height 1 lines
                ++ (sides k (before width) 1 (height - 2)
                    ++ (set_cursor_position k (pos 0) (before height)
                        ++ (border_row 148 152 width ++ reset_text_color k))))))

-- The size is compared as an int.
unfoldable pub is_below : ℕ → ℤ → Bool
is_below n (pos m) = ltb n m
is_below n (negsuc m) = false

-- What a character other than the end of the line makes of the input.
unfoldable pub typed_on : ℤ → ℕ → List ℕ → List ℕ
unfolding is_below
typed_on maximum c typed =
    if c == 8
    then take (length typed - 1) typed
    else if is_below (length typed) maximum
    then typed ++ c ∷ []
    else typed

-- GetInput for the characters that _getwch returns: none while no end of the line has come.
unfoldable pub get_input : ℤ → List ℕ → List ℕ → Option (List ℕ)
unfolding typed_on
get_input maximum typed [] = none
get_input maximum typed (c ∷ cs) =
    let rest = get_input maximum (typed_on maximum c typed) cs in
    if c == 13 || c == 10 then some typed else rest
