-- ===== src/Client/Screen/Drawing.antt =====
-- The drawing of CodeNamesClient/src/gui/GameScreen.cpp, as calls of the console; the status lines are
-- those of ConsoleUtils::SetStatus.
use codenames_cpp_vibecoding.Prelude.{
  ℕ, suc, ◌+◌, ◌-◌, ◌*◌, ◌/◌, ◌%◌, Bool, not, ◌&&◌, ◌||◌, List, [], ◌∷◌, ◌++◌, if◌then◌else◌, ltb,
  leb, length, take, drop, ℤ, pos, negsuc, is_nonpos, true, false,
}
use codenames_cpp_vibecoding.Text.{Bytes, text, is_empty, to_string}
use codenames_cpp_vibecoding.Client.{eq_ℤ, Player, ClientCard, GameMessage, GameState}
use codenames_cpp_vibecoding.Client.Console.{
  Color, blue, cyan, red, yellow, white, gray, Output, Console, get_console_size, print_at,
  print_colored_at, print_centered, clear, clear_line, draw_border, before, max_inner,
}
use codenames_cpp_vibecoding.Client.Screen.{
  Screen, InputMode, no_input, input_hint_word, input_hint_count, input_answer, input_chat,
  display_word, utf8_length,
}

unfoldable pub draw_game_board : Console → List Output
draw_game_board k = print_centered k (pos 1) (text "=== CODE NAMES - GAME ===") yellow

unfoldable pub draw_score_board : Console → List Output
draw_score_board k = print_centered k (pos 1) (text "=== CODE NAMES ===") yellow

-- The hint, and the tries that are left in the guess phase.
unfoldable pub draw_hint_panel : Console → GameState → List Output
draw_hint_panel k g =
    if is_empty g.hint_word
    then []
    else print_colored_at k (pos 40) (pos 1)
        (text "[힌트] "
          ++ (g.hint_word ++ (text " (연관 카드: " ++ (to_string g.hint_number ++ text "개)"))))
        yellow
      ++ (if eq_ℤ g.in_game_step (pos 1) && not (is_nonpos g.remaining_tries)
          then print_colored_at k (pos 40) (pos 2)
              (text " [남은 시도: " ++ (to_string g.remaining_tries ++ text "회]")) cyan
          else [])

-- The words that are left of n for a score, as an int.
unfoldable pub remaining : ℕ → ℤ → ℤ
remaining n (pos score) = if leb score n then pos (n - score) else negsuc (score - n - 1)
remaining n (negsuc score) = pos (n + suc score)

unfoldable pub draw_players : Console → Color → ℕ → List Player → List Output
draw_players k color y [] = []
draw_players k color y (p ∷ ps) =
    print_colored_at k (pos 2) (pos y)
      (text "  "
        ++ (p.nickname ++ (text "     " ++ (if p.is_leader then text "[스파이마스터]" else text "[요원]"))))
      color
    ++ draw_players k color (suc y) ps

unfoldable pub draw_player_info : Console → GameState → List Output
unfolding remaining draw_players
draw_player_info k g =
    print_colored_at k (pos 2) (pos 3)
      (text "레드 팀      남은 단어 = " ++ to_string (remaining 9 g.red_score)) red
    ++ (draw_players k red 4 (take 3 g.players)
        ++ (print_colored_at k (pos 2) (pos 8)
              (text "블루 팀      남은 단어 = " ++ to_string (remaining 8 g.blue_score)) blue
            ++ draw_players k blue 9 (take 3 (drop 3 g.players))))

-- The color of a card, for a leader or for an agent.
unfoldable pub card_color : Bool → ClientCard → Color
card_color leader c =
    if c.is_revealed || leader
    then (if eq_ℤ c.card_type (pos 1)
        then red
        else if eq_ℤ c.card_type (pos 2)
        then blue
        else if eq_ℤ c.card_type (pos 3)
        then white
        else if eq_ℤ c.card_type (pos 4)
        then yellow
        else white)
    else white

-- The box of a card and its word, whose width is 4 at most.
unfoldable pub draw_card : Console → ℕ → ℕ → Color → Bytes → List Output
draw_card k x y color word =
    print_colored_at k (pos x) (pos y) (text "+--------+") color
    ++ (print_colored_at k (pos x) (pos (y + 1)) (text "|        |") color
        ++ (print_colored_at k (pos x) (pos (y + 2)) (text "+--------+") color
            ++ print_colored_at k (pos (x + 1 + (8 - utf8_length word) / 2)) (pos (y + 1)) word
                color))

-- The cards from number i on, five in a row.
unfoldable pub draw_cards : Console → Bool → ℕ → List ClientCard → List Output
unfolding draw_card card_color
draw_cards k leader i [] = []
draw_cards k leader i (c ∷ cs) =
    let rest = draw_cards k leader (suc i) cs in
    if ltb i 25
    then draw_card k (40 + (i % 5) * 11) (3 + (i / 5) * 3) (card_color leader c) (display_word c)
      ++ rest
    else []

unfoldable pub draw_card_grid : Console → GameState → List Output
unfolding draw_cards
draw_card_grid k g = draw_cards k g.is_my_leader 0 g.cards

unfoldable pub draw_messages : Console → ℕ → List GameMessage → List Output
draw_messages k y [] = []
draw_messages k y (m ∷ ms) =
    print_colored_at k (pos 2) (pos y) (m.nickname ++ (text ": " ++ m.message))
      (if eq_ℤ m.team (pos 2) then yellow else white)
    ++ draw_messages k (suc y) ms

-- The last eight messages.
unfoldable pub draw_chat_panel : Console → GameState → List Output
unfolding draw_messages
draw_chat_panel k g =
    print_colored_at k (pos 2) (pos 20) (text "-------------------<채팅 로그>-------------------") cyan
    ++ (draw_messages k 21 (drop (length g.messages - 8) g.messages)
        ++ print_colored_at k (pos 2) (pos 30) (text "Tab: 채팅 전환") gray)

unfoldable pub guide : InputMode → Bytes
guide no_input = []
guide input_hint_word = text "→ 힌트 단어를 입력하세요 (엔터로 완료):"
guide input_hint_count = text "→ 연관된 카드 수를 입력하세요 (엔터로 완료):"
guide input_answer = text "→ 단어를 입력하세요 (엔터로 완료):"
guide input_chat = text "→ 채팅을 입력하세요 (엔터로 전송):"

is_idle : InputMode → Bool
is_idle no_input = true
is_idle input_hint_word = false
is_idle input_hint_count = false
is_idle input_answer = false
is_idle input_chat = false

unfoldable pub status_text : GameState → Screen → Bytes
unfolding is_idle
status_text g s =
    if is_idle s.input_mode
    then text "Turn: "
      ++ ((if eq_ℤ g.current_turn (pos 0) then text "RED" else text "BLUE")
          ++ (text " | Phase: "
              ++ ((if eq_ℤ g.in_game_step (pos 0) then text "HINT" else text "ANSWER")
                  ++ text " | TAB:채팅 | ESC:종료")))
    else text "TAB:채팅전환 | ESC:취소"

unfoldable pub draw_status_bar : Console → GameState → Screen → List Output
unfolding is_idle guide status_text
draw_status_bar k g s =
    let (width, height) = get_console_size k in
    clear_line k (pos 0) (pos 31) (pos width)
    ++ (clear_line k (pos 0) (max_inner height) (pos width)
        ++ ((if is_idle s.input_mode
              then []
              else print_colored_at k (pos 2) (pos 31) (guide s.input_mode) cyan
                ++ (print_at k (pos 2) (max_inner height) (text "입력: ")
                    ++ print_colored_at k (pos (2 + length (text "입력: "))) (max_inner height)
                        (s.input_buffer ++ text "_") yellow))
            ++ print_at k (pos 2) (before height) (status_text g s)))

-- What a round of Show writes.
unfoldable pub draw_screen : Console → List Bytes → GameState → Screen → List Output
unfolding draw_score_board draw_hint_panel draw_player_info draw_card_grid draw_chat_panel
    draw_status_bar
draw_screen k lines g s =
    if s.needs_redraw
    then clear k
      ++ (draw_border k lines
          ++ (draw_score_board k
              ++ (draw_hint_panel k g
                  ++ (draw_player_info k g
                      ++ (draw_card_grid k g ++ (draw_chat_panel k g ++ draw_status_bar k g s))))))
    else if s.echo_needs_update
    then draw_status_bar k g s
    else []
