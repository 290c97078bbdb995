-- ===== src/Client/Fields.antt =====
-- PacketHandler::ParseField of CodeNamesClient/src/core/PacketHandler.cpp.
pub mod Reading
use codenames_cpp_vibecoding.Prelude.{ℕ, zero, suc, List, [], ◌∷◌, ◌++◌, Option, none, some}
use codenames_cpp_vibecoding.Text.{Bytes, pipe, split_at}

-- The loop over the delimiters, from the text at startPos on. Where there is none, `find` gives
-- npos, and `npos + 1` is 0: the search goes on at the beginning. `none` if the text ends too soon.
unfoldable pub skip_fields : Bytes → ℕ → Bytes → Option Bytes
skip_fields whole zero rest = some rest
skip_fields whole (suc n) [] = none
skip_fields whole (suc n) (c ∷ rest) = elim (split_at pipe (c ∷ rest)) [
  | none ↦ skip_fields whole n whole
  | some (a, behind) ↦ skip_fields whole n behind
]

-- The text up to the next delimiter, or all of it.
unfoldable pub until_pipe : Bytes → Bytes
until_pipe rest = elim (split_at pipe rest) [ none ↦ rest | some (a, behind) ↦ a ]

unfoldable pub parse_field : Bytes → ℕ → Bytes
parse_field whole i = elim (skip_fields whole i whole) [ none ↦ [] | some rest ↦ until_pipe rest ]
