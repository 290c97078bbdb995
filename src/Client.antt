-- ===== src/Client.antt =====
-- CodeNamesClient/include/core/GameState.h and src/core/GameState.cpp: what the client knows of the
-- game, and the observers that it tells. An observer is an object of some type `O` behind a pointer;
-- `on` is what its callbacks do to it, with the game state as it is at the call.
pub mod Fields
pub mod Packets
pub mod Mirror
pub mod Screen
pub mod Forms
pub mod Scenes
pub mod Network
pub mod Console
use codenames_cpp_vibecoding.Prelude.{
  ℕ, ◌==◌, ◌≤◌, ◌<◌, suc, Bool, true, false, not, ◌&&◌, ◌||◌, List, [], ◌∷◌, ◌++◌, Option, none,
  some, if◌then◌else◌, leb, length, get_elem?, set, keep_if, ℤ, pos, negsuc, drop, ◌-◌,
}
use codenames_cpp_vibecoding.Text.{Bytes, is_empty, bytes_eq}

-- GamePhase of the client.
pub data ClientPhase : Type 0 where
  login signup lobby matching playing result error_phase : ClientPhase

-- The number of an enumerator.
unfoldable pub client_phase_num : ClientPhase → ℕ
client_phase_num login = 0
client_phase_num signup = 1
client_phase_num lobby = 2
client_phase_num matching = 3
client_phase_num playing = 4
client_phase_num result = 5
client_phase_num error_phase = 6

abbrev pub same_phase : ClientPhase → ClientPhase → Bool
same_phase p q = client_phase_num p == client_phase_num q

-- PlayerRole of the client.
pub data ClientRole : Type 0 where
  client_agent client_spymaster : ClientRole

pub record Player : Type 0 where
  pub nickname : Bytes
  pub role : ClientRole
  pub is_ready : Bool
  pub team : ℤ
  pub is_leader : Bool

-- GameCard of the client.
pub record ClientCard : Type 0 where
  pub word : Bytes
  pub is_revealed : Bool
  pub card_type : ℤ

pub record GameMessage : Type 0 where
  pub nickname : Bytes
  pub message : Bytes
  pub team : ℤ

pub record GameState : Type 0 where
  pub current_phase : ClientPhase
  pub token : Bytes
  pub username : Bytes
  pub my_player_index : ℤ
  pub my_role : ℤ
  pub my_team : ℤ
  pub is_my_leader : Bool
  pub session_id : ℤ
  pub players : List Player
  pub cards : List ClientCard
  pub current_turn : ℤ
  pub in_game_step : ℤ
  pub red_score : ℤ
  pub blue_score : ℤ
  pub hint_word : Bytes
  pub hint_number : ℤ
  pub remaining_tries : ℤ
  pub matching_count : ℤ
  pub matching_max : ℤ
  pub messages : List GameMessage

-- -1
abbrev pub minus_one : ℤ
minus_one = negsuc 0

-- The constructor leaves matchingMax as the memory was: `stale`.
unfoldable pub new_game_state : ℤ → GameState
new_game_state stale = record {
  current_phase = login;
  token = [];
  username = [];
  my_player_index = minus_one;
  my_role = minus_one;
  my_team = minus_one;
  is_my_leader = false;
  session_id = minus_one;
  players = [];
  cards = [];
  current_turn = pos 0;
  in_game_step = pos 0;
  red_score = pos 0;
  blue_score = pos 0;
  hint_word = [];
  hint_number = pos 0;
  remaining_tries = pos 0;
  matching_count = pos 0;
  matching_max = stale;
  messages = [];
}

-- Reset, which forgets all but matchingMax.
unfoldable pub reset_game_state : GameState → GameState
unfolding new_game_state
reset_game_state s = record (new_game_state s.matching_max) { current_phase = lobby }

-- == and >= of `int`.
abbrev pub eq_ℤ : ℤ → ℤ → Bool
eq_ℤ (pos m) (pos n) = m == n
eq_ℤ (negsuc m) (negsuc n) = m == n
eq_ℤ _ _ = false

abbrev pub at_least : ℕ → ℤ → Bool
at_least n (pos m) = leb n m
at_least n (negsuc m) = false

-- `players[i]` for an index that is tested against the size first.
abbrev pub player_at : ℤ → GameState → Option Player
player_at (pos i) s = get_elem? s.players i
player_at (negsuc i) s = none

unfoldable pub is_my_turn : GameState → Bool
is_my_turn s = elim (player_at s.my_player_index s) [
  | none ↦ false
  | some p ↦ same_phase s.current_phase playing && eq_ℤ p.team s.current_turn
]

unfoldable pub is_game_over : GameState → Bool
is_game_over s =
    at_least 9 s.red_score || (at_least 8 s.blue_score || same_phase s.current_phase result)

-- The callbacks of GameStateObserver.
pub data Notice : Type 0 where
  phase_changed : ClientPhase → Notice
  players_updated cards_updated : Notice
  score_updated : ℤ → ℤ → Notice
  hint_received : Bytes → ℤ → Notice
  card_revealed : ℤ → Notice
  message_received : GameMessage → Notice
  turn_changed : ℤ → Notice
  game_over : Notice

-- The game state with its observers, by pointer, and the lines that ConsoleUtils::SetStatus keeps.
pub record Client (O : Type 0) : Type 0 where
  pub state : GameState
  pub observers : List ℕ
  pub objects : ℕ → O
  pub status : List Bytes

abbrev pub max_top_status_lines : ℕ
max_top_status_lines = 3

-- ConsoleUtils::SetStatus: the oldest lines go.
unfoldable pub set_status : Bytes → List Bytes → List Bytes
set_status line lines =
    if is_empty line
    then lines
    else (let longer = lines ++ line ∷ [] in drop (length longer - max_top_status_lines) longer)

module _ {O : Type 0} where
  -- A null observer is not added.
  unfoldable pub add_observer : Option ℕ → Client O → Client O
  add_observer none c = c
  add_observer (some p) c = record c { observers = c.observers ++ p ∷ [] }

  unfoldable pub remove_observer : ℕ → Client O → Client O
  remove_observer p c = record c { observers = keep_if (λ q. not (q == p)) c.observers }

  abbrev pub with_state : Client O → GameState → Client O
  with_state c s = record c { state = s }

  unfoldable pub show_status : Bytes → Client O → Client O
  show_status line c = record c { status = set_status line c.status }

module _ {O : Type 0} (on : Notice → GameState → O → O) where
  -- The loop of each Notify function.
  pub notify_each : Notice → GameState → List ℕ → (ℕ → O) → ℕ → O
  notify_each n s [] objects = objects
  notify_each n s (p ∷ ps) objects =
      notify_each n s ps (λ q. if q == p then on n s (objects p) else objects q)

  unfoldable pub notify : Notice → Client O → Client O
  unfolding notify_each
  notify n c = record c { objects = notify_each n c.state c.observers c.objects }

  unfoldable pub set_phase : ClientPhase → Client O → Client O
  set_phase p c =
      if same_phase c.state.current_phase p
      then c
      else notify (phase_changed p) (with_state c (record (c.state) { current_phase = p }))

  unfoldable pub update_players : List Player → Client O → Client O
  update_players ps c = notify players_updated (with_state c (record (c.state) { players = ps }))

  unfoldable pub update_cards : List ClientCard → Client O → Client O
  update_cards cs c = notify cards_updated (with_state c (record (c.state) { cards = cs }))

  unfoldable pub update_score : ℤ → ℤ → Client O → Client O
  update_score red blue c =
      if eq_ℤ c.state.red_score red && eq_ℤ c.state.blue_score blue
      then c
      else notify (score_updated red blue)
          (with_state c (record (c.state) { red_score = red; blue_score = blue }))

  unfoldable pub add_message : GameMessage → Client O → Client O
  add_message m c =
      notify (message_received m)
        (with_state c (record (c.state) { messages = c.state.messages ++ m ∷ [] }))

  -- An index outside the cards is passed over.
  unfoldable pub reveal_card : ℤ → Client O → Client O
  reveal_card (negsuc i) c = c
  reveal_card (pos i) c = elim (get_elem? c.state.cards i) [
    | none ↦ c
    | some k ↦ notify (card_revealed (pos i)) (
        with_state c
          (record (c.state) { cards = set c.state.cards i (record k { is_revealed = true }) }))
  ]

  unfoldable pub set_hint : Bytes → ℤ → Client O → Client O
  set_hint word n c =
      if bytes_eq c.state.hint_word word && eq_ℤ c.state.hint_number n
      then c
      else notify (hint_received word n)
          (with_state c (record (c.state) { hint_word = word; hint_number = n }))

  -- The observers are told also when the turn stays.
  unfoldable pub set_turn : ℤ → Client O → Client O
  set_turn team c =
      notify (turn_changed team) (with_state c (record (c.state) { current_turn = team }))

  unfoldable pub on_game_over : Client O → Client O
  on_game_over c = notify game_over (with_state c (record (c.state) { current_phase = result }))
