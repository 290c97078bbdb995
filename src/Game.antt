-- ===== src/Game.antt =====
-- CodeNamesServer/include/GameManager.h and the constructor in CodeNamesServer/src/GameManager.cpp:
-- the state of one game room. The mutex has no counterpart: each operation is one step.
pub mod Board
pub mod Roster
pub mod Broadcast
pub mod Turns
pub mod Cards
pub mod Requests
pub mod Play
pub mod Start
pub mod Invariant
use codenames_cpp_vibecoding.Prelude.{
  ℕ, suc, ◌==◌, Bool, true, false, ◌||◌, List, [], ◌∷◌, Option, none, if◌then◌else◌, ltb, replicate,
  ℤ, pos,
}
use codenames_cpp_vibecoding.Text.{Bytes}
use codenames_cpp_vibecoding.Session.{World}

pub data Team : Type 0 where
  red blue system : Team

pub data PlayerRole : Type 0 where
  agent spymaster : PlayerRole

pub data GamePhase : Type 0 where
  hint_phase guess_phase : GamePhase

pub data CardType : Type 0 where
  red_card blue_card neutral assassin : CardType

-- The numbers that the enumerators stand for on the wire.
unfoldable pub team_num : Team → ℕ
team_num red = 0
team_num blue = 1
team_num system = 2

unfoldable pub phase_num : GamePhase → ℕ
phase_num hint_phase = 0
phase_num guess_phase = 1

unfoldable pub card_type_num : CardType → ℕ
card_type_num red_card = 1
card_type_num blue_card = 2
card_type_num neutral = 3
card_type_num assassin = 4

-- ==
abbrev pub same_team : Team → Team → Bool
same_team red red = true
same_team blue blue = true
same_team system system = true
same_team _ _ = false

abbrev pub is_spymaster : PlayerRole → Bool
is_spymaster spymaster = true
is_spymaster agent = false

abbrev pub is_hint_phase : GamePhase → Bool
is_hint_phase hint_phase = true
is_hint_phase guess_phase = false

pub record GamePlayer : Type 0 where
  pub role_num : ℕ
  pub team : Team
  pub role : PlayerRole
  pub session : Option ℕ

pub record GameCard : Type 0 where
  pub word : Bytes
  pub card_type : CardType
  pub is_used : Bool

abbrev pub max_players : ℕ
max_players = 6

abbrev pub max_cards : ℕ
max_cards = 25

abbrev pub red_cards : ℕ
red_cards = 9

abbrev pub blue_cards : ℕ
blue_cards = 8

abbrev pub neutral_cards : ℕ
neutral_cards = 7

abbrev pub assassin_cards : ℕ
assassin_cards = 1

-- The scores start at 0 and only grow; `remaining_tries` and `hint_count` may be negative.
pub record Game : Type 0 where
  pub room_id : Bytes
  pub players : List GamePlayer
  pub cards : List GameCard
  pub word_list : List Bytes
  pub current_turn : Team
  pub current_phase : GamePhase
  pub red_score : ℕ
  pub blue_score : ℕ
  pub remaining_tries : ℤ
  pub hint_word : Bytes
  pub hint_count : ℤ
  pub game_over : Bool

-- The loop over the slots: 0, 1, 2 are red, and 0 and 3 lead.
unfoldable pub empty_slot : ℕ → GamePlayer
empty_slot i = record {
  role_num = i;
  team = if ltb i 3 then red else blue;
  role = if i == 0 || i == 3 then spymaster else agent;
  session = none;
}

unfoldable pub blank_card : GameCard
blank_card = record { word = []; card_type = neutral; is_used = false }

unfoldable pub new_game : Bytes → Game
unfolding empty_slot blank_card
new_game room_id = record {
  room_id = room_id;
  players =
      empty_slot 0 ∷ empty_slot 1 ∷ empty_slot 2 ∷ empty_slot 3 ∷ empty_slot 4 ∷ empty_slot 5 ∷ [];
  cards = replicate max_cards blank_card;
  word_list = replicate max_cards [];
  current_turn = red;
  current_phase = hint_phase;
  red_score = 0;
  blue_score = 0;
  remaining_tries = pos 0;
  hint_word = [];
  hint_count = pos 0;
  game_over = false;
}

-- A game and the sessions that it refers to.
pub record Room : Type 0 where
  pub game : Game
  pub world : World

abbrev pub with_game : Room → Game → Room
with_game r g = record r { game = g }
