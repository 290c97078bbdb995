-- ===== src/Tests/Clients.antt =====
-- Tests of the client: an observer that counts its calls, and a client that watches a room.
use codenames_cpp_vibecoding.Prelude.{
  ℕ, zero, suc, ◌≡◌, refl, arith, false, List, Bool, true, false, Option, none, ◌++◌, [], ◌∷◌, map,
  some, pos, replicate, All,
}
use codenames_cpp_vibecoding.Text.{Bytes, text, pipe, is_empty}
use codenames_cpp_vibecoding.Text.Fields.{Lacks}
use codenames_cpp_vibecoding.Game.{Game, GameCard, Room, red_card, team_num, phase_num, new_game}
use codenames_cpp_vibecoding.Game.Broadcast.{turn_update_message, all_cards_message}
use codenames_cpp_vibecoding.Game.Play.{hint_message}
use codenames_cpp_vibecoding.Client.{GameState, Client, Notice, new_game_state, playing, lobby}
use codenames_cpp_vibecoding.Client.Packets.Cards.{shown, IsSendable, board-shown}
use codenames_cpp_vibecoding.Client.Packets.Dispatch.{process_packet}
use codenames_cpp_vibecoding.Client.Mirror.{Mirrors}
use codenames_cpp_vibecoding.Protocol.{packet, pkt_answer, pkt_login_wrong_pw}
use codenames_cpp_vibecoding.Game.Cards.{find_card}
use codenames_cpp_vibecoding.Game.Requests.{answer, parse_request}
use codenames_cpp_vibecoding.Client.Screen.{
  Screen, new_screen, InputEvent, key_char, key_backspace, key_enter, input_answer,
  handle_input_event, process_input_events, erase_char, encode_char,
}
use codenames_cpp_vibecoding.Client.Screen.Sending.{
  SendsMore, process_input_events-Sends, typed_answer-find_card, if_found,
}
use codenames_cpp_vibecoding.Client.Screen.Drawing.{draw_screen}
use codenames_cpp_vibecoding.Client.Screen.Secrets.{covered, draw_screen-covered}
use codenames_cpp_vibecoding.Client.Screen.Typing.{erase_char-encode_char}
use codenames_cpp_vibecoding.Text.{max_int}
use codenames_cpp_vibecoding.Game.Broadcast.{create_game_init_message}
use codenames_cpp_vibecoding.Client.Packets.Seats.{IsClean, seats, seat_of}
use codenames_cpp_vibecoding.Client.Packets.Myself.{Placed, game_init-Placed}
use codenames_cpp_vibecoding.Client.Packets.Glued.{hint_swallows_turn_update}
use codenames_cpp_vibecoding.Prelude.{◌≢◌, ◌≤◌}
use codenames_cpp_vibecoding.Tests.Fixtures.{demo_game, demo_world, guessing_game}

-- Each call of an observer is counted.
abbrev pub counting : Notice → GameState → ℕ → ℕ
counting n s k = suc k

abbrev pub cat_card : GameCard
cat_card = record { word = text "cat"; card_type = red_card; is_used = false }

-- Red guesses on a board with the word "cat".
abbrev pub cat_game : Game
cat_game = record guessing_game { cards = replicate 25 cat_card }

abbrev cat_room : Room
cat_room = record { game = cat_game; world = demo_world }

abbrev pub cat_client : Client ℕ
unfolding new_game_state shown
cat_client = record {
  state = record (new_game_state (pos 6)) {
    current_phase = playing;
    cards = map shown cat_game.cards;
    in_game_step = pos 1;
  };
  observers = 0 ∷ [];
  objects = λ p. 0;
  status = [];
}

cat-Lacks : Lacks pipe (text "cat")
unfolding text
cat-Lacks =
    ((λ e. absurd (omega arith)), ((λ e. absurd (omega arith)), ((λ e. absurd (omega arith)), tt)))

cat-IsSendable : IsSendable cat_card
unfolding text is_empty
cat-IsSendable = (refl, cat-Lacks)

replicate-All : (n : ℕ) → All IsSendable (replicate n cat_card)
replicate-All zero = tt
replicate-All (suc n) = (cat-IsSendable, replicate-All n)

board-shown_example :
    (process_packet counting (all_cards_message cat_game) cat_client).state
    ≡ record (cat_client.state) { cards = map shown cat_game.cards }
board-shown_example = board-shown counting cat_game cat_client refl (replicate-All 25)

-- A player types "cat" as an answer.
abbrev cat_screen : Screen
unfolding new_screen
cat_screen = record new_screen { input_mode = input_answer; input_buffer = text "cat" }

abbrev cat_events : List InputEvent
cat_events = key_char 99 ∷ key_backspace ∷ key_enter ∷ []

process_input_events-Sends_example :
    SendsMore cat_client.state cat_screen.sent
      (process_input_events cat_client.state cat_events cat_screen).sent
process_input_events-Sends_example =
    process_input_events-Sends cat_client.state cat_events cat_screen

cat_client-Mirrors : Mirrors cat_game cat_client.state
unfolding cat_client new_game_state team_num phase_num new_game shown
cat_client-Mirrors = record { cards = refl; turn = refl; step = refl; over = λ e. cc }

typed_answer-find_card_example :
    ((handle_input_event cat_client.state key_enter cat_screen).sent
      ≡ cat_screen.sent
        ++ if_found
            (find_card cat_screen.input_buffer cat_game.cards)
            (packet pkt_answer (cat_screen.input_buffer ∷ [])))
    × (parse_request (packet pkt_answer (cat_screen.input_buffer ∷ []))
        ≡ answer cat_screen.input_buffer)
unfolding cat_screen text is_empty
typed_answer-find_card_example =
    typed_answer-find_card cat_game cat_client.state cat_screen cat_client-Mirrors refl refl

erase_char-encode_char_example : erase_char (text "cat" ++ encode_char 44032) ≡ text "cat"
erase_char-encode_char_example = erase_char-encode_char (text "cat") 44032 (omega arith)

-- "a", TAB, "b", twice the right arrow (224, 77), and ENTER.
abbrev pub login_keys : List (ℕ × ℕ)
login_keys = (97, 0) ∷ (9, 0) ∷ (98, 0) ∷ (224, 77) ∷ (13, 0) ∷ []

-- The client once it is connected: the lobby phase, and no token.
abbrev pub lobby_client : Client ℕ
lobby_client = record cat_client { state = record (cat_client.state) { current_phase = lobby } }

abbrev pub refused : List (Option Bytes)
refused = none ∷ some pkt_login_wrong_pw ∷ []

-- The seats of the demonstration room bear the names "a" to "f".
letter-IsClean :
    (k n t : ℕ) (b : Bool)
    → k ≢ pipe
    → n ≤ max_int
    → t ≤ 2
    → IsClean (record { name = k ∷ []; number = n; team = t; leads = b })
unfolding is_empty
letter-IsClean k n t b h hn ht = record {
  named = refl;
  plain = (h, tt);
  numbered = hn;
  teamed = ht;
}

demo-IsClean : All IsClean (seats demo_world 0 demo_game.players)
unfolding seats seat_of team_num
demo-IsClean = (
  letter-IsClean 97 0 0 true (λ e. absurd (omega arith)) (omega arith) (omega arith),
  (
    letter-IsClean 98 1 0 false (λ e. absurd (omega arith)) (omega arith) (omega arith),
    (
      letter-IsClean 99 2 0 false (λ e. absurd (omega arith)) (omega arith) (omega arith),
      (
        letter-IsClean 100 3 1 true (λ e. absurd (omega arith)) (omega arith) (omega arith),
        (
          letter-IsClean 101 4 1 false (λ e. absurd (omega arith)) (omega arith) (omega arith),
          (
            letter-IsClean 102 5 1 false (λ e. absurd (omega arith)) (omega arith) (omega arith),
            tt,
          ),
        ),
      ),
    ),
  ),
)

-- The client of the player in the last slot.
abbrev last_client : Client ℕ
last_client = record lobby_client { state = record (lobby_client.state) { username = 102 ∷ [] } }

game_init-Placed_example :
    Placed
      (102 ∷ [])
      (seats demo_world 0 demo_game.players)
      last_client.state
      (process_packet counting (create_game_init_message demo_game demo_world) last_client).state
game_init-Placed_example =
    game_init-Placed counting demo_game demo_world last_client refl demo-IsClean

hint_swallows_turn_update_example :
    let glued = hint_message cat_game (text "cat") (pos 2) ++ turn_update_message cat_game in
    ((process_packet counting glued cat_client).state
      ≡ (process_packet counting (hint_message cat_game (text "cat") (pos 2)) cat_client).state)
    × ((process_packet counting glued cat_client).state.in_game_step
        ≡ cat_client.state.in_game_step)
unfolding new_game
hint_swallows_turn_update_example =
    hint_swallows_turn_update counting cat_game cat_game (text "cat") 2 cat_client cat-IsSendable.0
      cat-Lacks (omega arith) (omega arith) (omega arith)

draw_screen-covered_example :
    draw_screen
      (record { handle = true; columns = 80; rows = 25 })
      []
      (record (cat_client.state) { cards = map covered cat_client.state.cards })
      new_screen
    ≡ draw_screen (record { handle = true; columns = 80; rows = 25 }) [] cat_client.state new_screen
unfolding cat_client new_game_state
draw_screen-covered_example =
    draw_screen-covered (record { handle = true; columns = 80; rows = 25 }) [] cat_client.state
      new_screen refl
