-- ===== src/Game/Invariant.antt =====
-- What holds of a game between two packets: the seats are those of the constructor, the scores are
-- the cards turned over, and the game is over exactly when it has been decided.
pub mod Steps
pub mod Histories
pub mod Frozen
pub mod Length
pub mod Deck
use codenames_cpp_vibecoding.Prelude.{
  ℕ, zero, suc, ◌+◌, ◌≤◌, ◌<◌, ◌≡◌, refl, arith, Bool, true, false, ◌&&◌, ◌||◌, List, [], ◌∷◌, map,
  length, count_if, leb, ltb, ℤ, pos,
}
use codenames_cpp_vibecoding.Text.{Bytes}
use codenames_cpp_vibecoding.Game.{
  Game, GameCard, GamePlayer, CardType, red_card, blue_card, neutral, assassin, Team, hint_phase,
  new_game, empty_slot, blank_card, max_cards, red_cards, blue_cards,
}
use codenames_cpp_vibecoding.Game.Start.{vacate}
use codenames_cpp_vibecoding.Game.Play.{is_system}

-- ==
abbrev pub same_card : CardType → CardType → Bool
same_card red_card red_card = true
same_card blue_card blue_card = true
same_card neutral neutral = true
same_card assassin assassin = true
same_card _ _ = false

-- A card of this type that is face up.
abbrev pub is_face_up : CardType → GameCard → Bool
is_face_up t c = c.is_used && same_card c.card_type t

abbrev pub face_up : CardType → List GameCard → ℕ
face_up t = count_if (is_face_up t)

abbrev pub in_deck : CardType → List GameCard → ℕ
in_deck t = count_if (λ c. same_card c.card_type t)

-- A team has all its cards, or the assassin is face up.
abbrev pub is_decided : Game → Bool
is_decided g =
    leb red_cards g.red_score || (leb blue_cards g.blue_score || ltb 0 (face_up assassin g.cards))

pub record Inv (g : Game) : Type 0 where
  pub seats : map vacate g.players ≡ (new_game []).players
  pub board : length g.cards ≡ max_cards
  pub red_counted : g.red_score ≡ face_up red_card g.cards
  pub blue_counted : g.blue_score ≡ face_up blue_card g.cards
  pub playable : is_system g.current_turn ≡ false
  pub idle : g.current_phase ≡ hint_phase → g.remaining_tries ≡ pos 0
  pub decided : g.game_over ≡ is_decided g

pub new_game-Inv : (room_id : Bytes) → Inv (new_game room_id)
unfolding new_game vacate
new_game-Inv room_id = record {
  seats = refl;
  board = refl;
  red_counted = refl;
  blue_counted = refl;
  playable = refl;
  idle = λ e. refl;
  decided = refl;
}
