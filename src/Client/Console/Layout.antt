-- ===== src/Client/Console/Layout.antt =====
-- Where the texts of src/gui/ConsoleUtils.cpp stand, and how wide they are.
use codenames_cpp_vibecoding.Prelude.{
  ℕ, zero, suc, ◌-◌, ◌/◌, ◌≤◌, ◌<◌, ◌≡◌, refl, true, List, [], ◌∷◌, ◌++◌, some, length,
  length-append, take, replicate, ℤ, pos, negsuc, arith,
}
use codenames_cpp_vibecoding.Text.{Bytes}
use codenames_cpp_vibecoding.Client.Console.{
  Console, Output, cursor, attributes, written, filled, signed, centered_x, clip, blanks,
  draw_input_box, set_text_color, reset_text_color, set_cursor_position, typed_on, get_input,
  is_below,
}

-- The bytes that go to std::cout.
unfoldable pub all_written : List Output → Bytes
all_written [] = []
all_written (written s ∷ os) = s ++ all_written os
all_written (cursor x y ∷ os) = all_written os
all_written (attributes a ∷ os) = all_written os
all_written (filled n ∷ os) = all_written os

length-replicate : (n : ℕ) (c : ℕ) → length (replicate n c) ≡ n
length-replicate zero c = refl
length-replicate (suc n) c = omega (arith, length-replicate n c)

length-take_at_most : (n : ℕ) (s : Bytes) → length (take n s) ≤ n
length-take_at_most zero s = omega arith
length-take_at_most (suc n) [] = omega arith
length-take_at_most (suc n) (c ∷ s) = omega (arith, length-take_at_most n s)

-- PrintCentered puts a text that fits into the console behind half of what is left of its columns;
-- a text that does not fit starts left of the console, by half of what is too much, rounded up.
centered_x_outcome :
    (width : ℕ) (s : Bytes)
    → width < 32768
    → length s < 2147483648
    → (length s ≤ width → centered_x width s ≡ pos ((width - length s) / 2))
      × (width < length s → centered_x width s ≡ negsuc ((length s - width - 1) / 2))
unfolding centered_x signed
centered_x_outcome width s w l = (λ h. ground arith, λ h. ground arith)

-- What is drawn for a prompt fills the box exactly.
draw_input_box-length :
    (k : Console) (x y : ℤ) (width : ℕ) (prompt : Bytes)
    → k.handle ≡ true
    → length (all_written (draw_input_box k x y (pos width) prompt)) ≡ width
unfolding draw_input_box clip blanks set_text_color reset_text_color set_cursor_position all_written
draw_input_box-length k x y width prompt h =
    rw (h, length-append, length-append, length-replicate)
      (omega (arith, length-take_at_most width prompt))

typed_on-length :
    (maximum c : ℕ) (typed : List ℕ)
    → length typed ≤ maximum
    → length (typed_on (pos maximum) c typed) ≤ maximum
unfolding typed_on is_below
typed_on-length maximum c typed h =
    ground (arith, length-append typed (c ∷ []), length-take_at_most (length typed - 1) typed)

-- The input never gets longer than GetInput's bound.
get_input-length :
    (maximum : ℕ) (typed keys line : List ℕ)
    → length typed ≤ maximum
    → get_input (pos maximum) typed keys ≡ some line
    → length line ≤ maximum
unfolding get_input
get_input-length maximum typed [] line h e = cc
get_input-length maximum typed (c ∷ cs) line h e =
    let later =
      get_input-length maximum (typed_on (pos maximum) c typed) cs line
        (typed_on-length maximum c typed h) in
    ground arith
