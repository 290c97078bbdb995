-- ===== src/Client/Screen/Secrets.antt =====
-- What the screen of an agent shows of the cards that are face down.
use codenames_cpp_vibecoding.Prelude.{
  ℕ, suc, ◌≡◌, refl, arith, false, List, [], ◌∷◌, map, if◌then◌else◌, pos,
}
use codenames_cpp_vibecoding.Text.{Bytes}
use codenames_cpp_vibecoding.Client.{ClientCard, GameState}
use codenames_cpp_vibecoding.Client.Console.{Console}
use codenames_cpp_vibecoding.Client.Screen.{Screen, display_word}
use codenames_cpp_vibecoding.Client.Screen.Drawing.{
  card_color, draw_cards, draw_card_grid, draw_screen,
}

-- A card without its type, unless it is face up.
unfoldable pub covered : ClientCard → ClientCard
covered c = if c.is_revealed then c else record c { card_type = pos 0 }

card_color-covered : (c : ClientCard) → card_color false (covered c) ≡ card_color false c
unfolding card_color covered
card_color-covered c = ground arith

display_word-covered : (c : ClientCard) → display_word (covered c) ≡ display_word c
unfolding display_word covered
display_word-covered c = ground arith

draw_cards-covered :
    (k : Console) (i : ℕ) (cs : List ClientCard)
    → draw_cards k false i (map covered cs) ≡ draw_cards k false i cs
unfolding draw_cards
draw_cards-covered k i [] = refl
draw_cards-covered k i (c ∷ cs) =
    rw (card_color-covered c, display_word-covered c, draw_cards-covered k (suc i) cs) refl

-- The screen of an agent depends on nothing of a card that is face down but its word: with the types of
-- these cards taken away, every round draws the same.
pub draw_screen-covered :
    (k : Console) (lines : List Bytes) (g : GameState) (s : Screen)
    → g.is_my_leader ≡ false
    → draw_screen k lines (record g { cards = map covered g.cards }) s ≡ draw_screen k lines g s
unfolding draw_screen draw_card_grid
draw_screen-covered k lines g s h = rw (h, draw_cards-covered k 0 g.cards) refl
