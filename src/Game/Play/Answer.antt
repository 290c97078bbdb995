-- ===== src/Game/Play/Answer.antt =====
-- ProcessAnswer, seen at the game: which card is turned over, and what that does to the state.
use codenames_cpp_vibecoding.Prelude.{
  ℕ, zero, suc, ◌≡◌, ◌∙◌, arith, true, false, ◌||◌, not, List, [], ◌∷◌, none, some, if◌then◌else◌,
  get_elem?, take, All, pos,
}
use codenames_cpp_vibecoding.Text.{Bytes}
use codenames_cpp_vibecoding.Text.Fields.{bytes_eq_sound}
use codenames_cpp_vibecoding.Game.{Game, GameCard, Room, CardType}
use codenames_cpp_vibecoding.Game.Broadcast.Delivery.{broadcast_game, send_card_update_game}
use codenames_cpp_vibecoding.Game.Turns.{turned, check_winner, next_team}
use codenames_cpp_vibecoding.Game.Turns.Ending.{switch_turn_game, end_game_game}
use codenames_cpp_vibecoding.Game.Cards.{Verdict, reveal, find_card, is_open}
use codenames_cpp_vibecoding.Game.Play.{conclude, answer_card, is_system}

pub find_card-some :
    (word : Bytes) (cs : List GameCard) (i : ℕ) (c : GameCard)
    → find_card word cs ≡ some (i, c)
    → (get_elem? cs i ≡ some c) × (c.word ≡ word) × (c.is_used ≡ false)
unfolding find_card
find_card-some word [] i c h = cc
find_card-some word (d ∷ cs) zero c h = ground (arith, bytes_eq_sound d.word word)
find_card-some word (d ∷ cs) (suc i) c h = ground (arith, find_card-some word cs i c)

-- No card before the one that is found would have served.
pub find_card_first :
    (word : Bytes) (cs : List GameCard) (i : ℕ) (c : GameCard)
    → find_card word cs ≡ some (i, c)
    → All (λ d. is_open word d ≡ false) (take i cs)
unfolding find_card
find_card_first word [] i c h = cc
find_card_first word (d ∷ cs) zero c h = tt
find_card_first word (d ∷ cs) (suc i) c h = ground (arith, find_card_first word cs i c)

pub find_card-none :
    (word : Bytes) (cs : List GameCard)
    → find_card word cs ≡ none
    → All (λ d. is_open word d ≡ false) cs
unfolding find_card
find_card-none word [] h = tt
find_card-none word (d ∷ cs) h = ground (arith, find_card-none word cs)

-- The game behind a reveal: over, with the turn passed on, or still in the same turn.
unfoldable pub concluded : Verdict → Game
concluded v =
    if not (is_system (check_winner v.game)) || v.game_ends
    then record (v.game) { game_over = true }
    else if v.turn_ends
    then turned v.game
    else v.game

conclude_game :
    (t : CardType) (v : Verdict) (r : Room) → r.game ≡ v.game → (conclude t v r).game ≡ concluded v
unfolding conclude concluded
conclude_game t v r e = ground (
  arith,
  end_game_game (next_team r.game.current_turn) r,
  end_game_game (check_winner r.game) r,
  switch_turn_game r,
)

pub answer_card_game :
    (name : Bytes) (i : ℕ) (c : GameCard) (r : Room)
    → (answer_card name i c r).game ≡ concluded (reveal i c r.game)
unfolding answer_card
answer_card_game name i c r =
    conclude_game c.card_type (reveal i c r.game) _
      (broadcast_game _ _ ∙ send_card_update_game (pos i) _)
