-- ===== src/Game/Cards.antt =====
-- The middle of ProcessAnswer in GameManager.cpp: which card a word means, and what turning it over
-- does to the game.
use codenames_cpp_vibecoding.Prelude.{
  ℕ, suc, ◌+◌, Bool, true, false, ◌&&◌, not, List, [], ◌∷◌, Option, none, some, if◌then◌else◌, set,
  pred_ℤ, is_nonpos,
}
use codenames_cpp_vibecoding.Text.{Bytes, text, bytes_eq}
use codenames_cpp_vibecoding.Game.{
  Game, GameCard, red, blue, CardType, red_card, blue_card, neutral, assassin, same_team,
}

-- `cards_[i].word == word && !cards_[i].isUsed`
unfoldable pub is_open : Bytes → GameCard → Bool
is_open word c = bytes_eq c.word word && not c.is_used

-- The first such card, with its index.
unfoldable pub find_card : Bytes → List GameCard → Option (ℕ × GameCard)
unfolding is_open
find_card word [] = none
find_card word (c ∷ cs) =
    let rest = find_card word cs in
    if is_open word c
    then some (0, c)
    else elim rest [ none ↦ none | some (i, d) ↦ some (suc i, d) ]

-- What a revealed card does to the counters, whether the turn or the game ends, and the remark
-- that is shown behind the player's name.
pub record Verdict : Type 0 where
  pub game : Game
  pub turn_ends : Bool
  pub game_ends : Bool
  pub remark : Bytes

-- A card of the team whose turn it is costs a try; any other ends the turn.
own_card : Game → Bytes → Verdict
own_card g remark = record {
  game = record g { remaining_tries = pred_ℤ g.remaining_tries };
  turn_ends = is_nonpos (pred_ℤ g.remaining_tries);
  game_ends = false;
  remark = remark;
}

turn_over : Game → Bytes → Verdict
turn_over g remark = record { game = g; turn_ends = true; game_ends = false; remark = remark }

unfoldable pub verdict : CardType → Game → Verdict
unfolding own_card turn_over
verdict red_card g =
    let h : Game = record g { red_score = g.red_score + 1 } in
    if same_team g.current_turn red
    then own_card h (text "님이 RED 카드를 선택! (+1점)")
    else turn_over h (text "님이 RED 카드를 선택! 턴 종료.")
verdict blue_card g =
    let h : Game = record g { blue_score = g.blue_score + 1 } in
    if same_team g.current_turn blue
    then own_card h (text "님이 BLUE 카드를 선택! (+1점)")
    else turn_over h (text "님이 BLUE 카드를 선택! 턴 종료.")
verdict neutral g = turn_over g (text "님이 중립 카드를 선택! 턴 종료.")
verdict assassin g = record {
  game = g;
  turn_ends = false;
  game_ends = true;
  remark = text "님이 암살자를 선택! 게임 종료.";
}

-- The card is turned over and its verdict applied.
unfoldable pub reveal : ℕ → GameCard → Game → Verdict
unfolding verdict
reveal i c g =
    verdict c.card_type (record g { cards = set g.cards i (record c { is_used = true }) })
