-- ===== src/Client/Screen.antt =====
-- CodeNamesClient/include/gui/GameScreen.h and src/gui/GameScreen.cpp, less the drawing: the input of
-- the player, the packets it leads to, and the callbacks of the screen as an observer. The threads
-- share queues under mutexes: a key and a packet are each one step of the main thread.
pub mod Typing
pub mod Sending
pub mod Show
pub mod Ending
pub mod Drawing
pub mod Secrets
use codenames_cpp_vibecoding.Prelude.{
  ℕ, zero, suc, ◌+◌, ◌-◌, ◌*◌, ◌/◌, ◌%◌, ◌==◌, Bool, true, false, not, ◌&&◌, ◌||◌, List, [], ◌∷◌,
  ◌++◌, Option, none, some, if◌then◌else◌, ltb, leb, length, get_elem?, take, replicate, ℤ, pos,
  negsuc,
}
use codenames_cpp_vibecoding.Text.{Bytes, text, is_empty, bytes_eq, to_string, stoi}
use codenames_cpp_vibecoding.Protocol.{packet, pkt_hint_msg, pkt_answer, pkt_chat}
use codenames_cpp_vibecoding.Client.{
  ClientPhase, playing, same_phase, ClientCard, GameState, Client, Notice, phase_changed,
  players_updated, cards_updated, score_updated, hint_received, card_revealed, message_received,
  turn_changed, game_over, minus_one, eq_ℤ,
}
use codenames_cpp_vibecoding.Client.Packets.Dispatch.{process_packet}

pub data InputMode : Type 0 where
  no_input input_hint_word input_hint_count input_answer input_chat : InputMode

pub data InputEvent : Type 0 where
  key_char : ℕ → InputEvent
  key_backspace key_enter key_esc key_tab : InputEvent

-- What InputThreadFunc makes of a UTF-16 unit.
unfoldable pub input_event : ℕ → InputEvent
input_event wch =
    if wch == 27
    then key_esc
    else if wch == 9
    then key_tab
    else if wch == 13 || wch == 10
    then key_enter
    else if wch == 8
    then key_backspace
    else key_char wch

-- `sent` is what SendData was called with; its result is not read.
pub record Screen : Type 0 where
  pub game_running : Bool
  pub needs_redraw : Bool
  pub echo_needs_update : Bool
  pub selected_card_index : ℤ
  pub input_buffer : Bytes
  pub last_known_red : ℤ
  pub last_known_blue : ℤ
  pub last_message_count : ℕ
  pub input_mode : InputMode
  pub hint_word : Bytes
  pub sent : List Bytes

unfoldable pub new_screen : Screen
new_screen = record {
  game_running = false;
  needs_redraw = true;
  echo_needs_update = false;
  selected_card_index = pos 0;
  input_buffer = [];
  last_known_red = minus_one;
  last_known_blue = minus_one;
  last_message_count = 0;
  input_mode = no_input;
  hint_word = [];
  sent = [];
}

-- A continuation byte of UTF-8: its two highest bits are 10.
abbrev pub is_continuation : ℕ → Bool
is_continuation c = c / 64 == 2

unfoldable pub utf8_length : Bytes → ℕ
utf8_length [] = 0
utf8_length (c ∷ s) = let rest = utf8_length s in if is_continuation c then rest else suc rest

-- The bytes before the first character for which `count == maxChars`; `n` characters are left.
unfoldable pub utf8_truncate : Bytes → ℕ → Bytes
utf8_truncate [] n = []
utf8_truncate (c ∷ s) zero = if is_continuation c then c ∷ utf8_truncate s zero else []
utf8_truncate (c ∷ s) (suc n) =
    if is_continuation c then c ∷ utf8_truncate s (suc n) else c ∷ utf8_truncate s n

unfoldable pub utf8_truncated : Bytes → ℕ → Bytes
unfolding utf8_truncate
utf8_truncated s zero = []
utf8_truncated s (suc n) = utf8_truncate s (suc n)

unfoldable pub utf8_pad : Bytes → ℕ → Bytes
utf8_pad s target =
    if leb target (utf8_length s) then s else s ++ replicate (target - utf8_length s) b' '

-- The word on a card of the board.
unfoldable pub display_word : ClientCard → Bytes
unfolding utf8_truncated
display_word c = if c.is_revealed then text "완료" else utf8_truncated c.word 4

-- A UTF-16 unit, or any code point below 0x110000, in UTF-8.
unfoldable pub encode_char : ℕ → Bytes
encode_char wch =
    if ltb wch 128
    then wch ∷ []
    else if ltb wch 2048
    then (192 + wch / 64) ∷ (128 + wch % 64) ∷ []
    else if ltb wch 65536
    then (224 + wch / 4096) ∷ (128 + (wch / 64) % 64) ∷ (128 + wch % 64) ∷ []
    else (240 + (wch / 262144) % 8)
      ∷ (128 + (wch / 4096) % 64)
      ∷ (128 + (wch / 64) % 64)
      ∷ (128 + wch % 64)
      ∷ []

abbrev continues_at : Bytes → ℕ → Bool
continues_at s i = elim (get_elem? s i) [ none ↦ false | some c ↦ is_continuation c ]

-- The loop of the backspace: from `i` back to the start of the character.
unfoldable pub char_start : Bytes → ℕ → ℕ
char_start s zero = zero
char_start s (suc i) =
    let before = char_start s i in if continues_at s (suc i) then before else suc i

unfoldable pub erase_char : Bytes → Bytes
unfolding char_start
erase_char [] = []
erase_char (c ∷ s) = take (char_start (c ∷ s) (length s)) (c ∷ s)

unfoldable pub update_input_mode : GameState → Screen → Screen
update_input_mode g s = record s {
  input_mode =
      if eq_ℤ g.in_game_step (pos 0) && (g.is_my_leader && eq_ℤ g.my_team g.current_turn)
      then input_hint_word
      else if eq_ℤ g.in_game_step (pos 1) && (not g.is_my_leader && eq_ℤ g.my_team g.current_turn)
      then input_answer
      else no_input;
  needs_redraw = true;
}

-- SendData.
abbrev pub send_data : Bytes → Screen → Screen
send_data m s = record s { sent = s.sent ++ m ∷ [] }

unfoldable pub provide_hint : Bytes → ℤ → Screen → Screen
provide_hint word n = send_data (packet pkt_hint_msg (word ∷ to_string n ∷ []))

unfoldable pub send_chat_message : Bytes → Screen → Screen
send_chat_message m = send_data (packet pkt_chat (m ∷ []))

-- A negative index is larger than any size.
unfoldable pub select_card : GameState → ℤ → Screen → Screen
select_card g (negsuc i) s = s
select_card g (pos i) s = elim (get_elem? g.cards i) [
  | none ↦ s
  | some c ↦ send_data (packet pkt_answer (c.word ∷ [])) s
]

-- A card that is face down and has this word.
unfoldable pub has_card : Bytes → List ClientCard → Bool
has_card answer [] = false
has_card answer (c ∷ cs) =
    let rest = has_card answer cs in
    if not c.is_revealed && bytes_eq c.word answer then true else rest

-- The number of a hint is taken if it is positive.
unfoldable pub hint_counted : Option ℤ → Screen → Screen
unfolding provide_hint
hint_counted (some (pos (suc n))) s = record (provide_hint s.hint_word (pos (suc n)) s) {
  input_mode = no_input;
  hint_word = [];
}
hint_counted _ s = s

unfoldable pub complete_in : InputMode → GameState → Screen → Screen
unfolding hint_counted has_card send_chat_message
complete_in no_input g s = s
complete_in input_hint_word g s = record s {
  hint_word = s.input_buffer;
  input_mode = input_hint_count;
}
complete_in input_hint_count g s = hint_counted (stoi s.input_buffer) s
complete_in input_answer g s =
    if has_card s.input_buffer g.cards
    then send_data (packet pkt_answer (s.input_buffer ∷ [])) s
    else s
complete_in input_chat g s = send_chat_message s.input_buffer s

unfoldable pub process_completed_input : GameState → Screen → Screen
unfolding complete_in
process_completed_input g s = if is_empty s.input_buffer then s else complete_in s.input_mode g s

abbrev pub is_typing : InputMode → Bool
is_typing no_input = false
is_typing _ = true

abbrev pub is_chat : InputMode → Bool
is_chat input_chat = true
is_chat _ = false

unfoldable pub handle_input_event : GameState → InputEvent → Screen → Screen
unfolding update_input_mode process_completed_input encode_char erase_char
handle_input_event g key_esc s =
    if is_typing s.input_mode
    then record s { input_mode = no_input; input_buffer = []; needs_redraw = true }
    else record s { game_running = false }
handle_input_event g key_tab s =
    if is_chat s.input_mode
    then update_input_mode g (record s { input_buffer = [] })
    else record s { input_buffer = []; input_mode = input_chat; needs_redraw = true }
handle_input_event g key_enter s =
    if is_typing s.input_mode
    then record (process_completed_input g s) { input_buffer = []; needs_redraw = true }
    else s
handle_input_event g key_backspace s =
    if is_typing s.input_mode && not (is_empty s.input_buffer)
    then record s { input_buffer = erase_char s.input_buffer; echo_needs_update = true }
    else s
handle_input_event g (key_char wch) s =
    if is_typing s.input_mode && (leb 32 wch && ltb wch 1114112)
    then record s { input_buffer = s.input_buffer ++ encode_char wch; echo_needs_update = true }
    else s

-- ProcessInputEvents, for the events that wait.
unfoldable pub process_input_events : GameState → List InputEvent → Screen → Screen
process_input_events g [] s = s
process_input_events g (e ∷ es) s = process_input_events g es (handle_input_event g e s)

-- The callbacks.
unfoldable pub screen_on : Notice → GameState → Screen → Screen
unfolding update_input_mode
screen_on (phase_changed p) g s =
    let redrawn : Screen = record s { needs_redraw = true } in
    if same_phase p playing
    then update_input_mode g redrawn
    else record redrawn { input_mode = no_input }
screen_on players_updated g s = record s { needs_redraw = true }
screen_on cards_updated g s = record s { needs_redraw = true }
screen_on (score_updated r b) g s =
    if not (eq_ℤ s.last_known_red r) || not (eq_ℤ s.last_known_blue b)
    then record s { last_known_red = r; last_known_blue = b; needs_redraw = true }
    else s
screen_on (hint_received word n) g s = record s { needs_redraw = true }
screen_on (card_revealed i) g s = record s { needs_redraw = true }
screen_on (message_received m) g s =
    if s.last_message_count == length g.messages
    then s
    else record s { last_message_count = length g.messages; needs_redraw = true }
screen_on (turn_changed team) g s = update_input_mode g (record s { needs_redraw = true })
screen_on game_over g s = record s { game_running = false }

-- DrainPacketQueue, for the packets that wait.
unfoldable pub drain_packet_queue : List Bytes → Client Screen → Client Screen
unfolding screen_on
drain_packet_queue [] c = c
drain_packet_queue (p ∷ ps) c =
    drain_packet_queue ps (if is_empty p then c else process_packet screen_on p c)
