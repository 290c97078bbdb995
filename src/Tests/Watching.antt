-- ===== src/Tests/Watching.antt =====
-- A client that watches a game from its start, message by message.
use codenames_cpp_vibecoding.Prelude.{
  ◌≡◌, refl, arith, Bool, true, false, not, ◌&&◌, List, [], ◌∷◌, Option, none, some, All,
}
use codenames_cpp_vibecoding.Client.Mirror.Receives.{is_whole, start_game-Mirrors, watch}
use codenames_cpp_vibecoding.Game.{GameCard, Room, card_type_num, phase_num, team_num}
use codenames_cpp_vibecoding.Game.Board.{assign_cards, load_word_list}
use codenames_cpp_vibecoding.Game.Broadcast.{
  all_cards_message, broadcast_each, broadcast_game_system_message, broadcast_to_all, card_fields,
  card_update_message, create_game_init_message, deliver, flag, init_entries, init_entry,
  send_all_cards_each, send_all_cards_to_all, send_game_init, send_game_state, system_message,
  turn_update_message,
}
use codenames_cpp_vibecoding.Game.Play.{
  handle_game_packet, hint_message, hinted, is_missing, is_valid_player_for_hint, perform,
  player_name, player_session, process_hint,
}
use codenames_cpp_vibecoding.Game.Requests.{parse_hint, parse_request}
use codenames_cpp_vibecoding.Game.Roster.{find_player_index, get_player_count, holds_nickname, slot}
use codenames_cpp_vibecoding.Game.Start.{initialize_game, reset, start_game}
use codenames_cpp_vibecoding.Game.Turns.{phased, switch_phase}
use codenames_cpp_vibecoding.Protocol.{fields, packet, payload}
use codenames_cpp_vibecoding.Session.{modify, post_send, update}
use codenames_cpp_vibecoding.Text.{
  Bytes, pipe, bytes_eq, digits, is_empty, read_digits, split_at, starts_with, stoi, text,
  to_string, to_string_ℕ,
}
use codenames_cpp_vibecoding.Text.Fields.{split_at-none-Lacks}
use codenames_cpp_vibecoding.Client.Packets.Cards.{IsSendable}
use codenames_cpp_vibecoding.Client.Mirror.{Listens, Mirrors}
use codenames_cpp_vibecoding.Client.Mirror.Runs.{Run, begin, packet_step}
use codenames_cpp_vibecoding.Game.Start.Opening.{started_game_sessions, started_game_players}
use codenames_cpp_vibecoding.Tests.Fixtures.{
  demo_seats, hint_packet, unshuffled, unshuffled-Perm, demo_count, demo_room,
}
use codenames_cpp_vibecoding.Tests.Clients.{counting, lobby_client}

unsplit : Option (Bytes × Bytes) → Bool
unsplit none = true
unsplit (some p) = false

unsplit_sound : (o : Option (Bytes × Bytes)) → unsplit o ≡ true → o ≡ none
unfolding unsplit
unsplit_sound none e = refl
unsplit_sound (some p) e = cc

sendable_words : List GameCard → Bool
sendable_words [] = true
sendable_words (k ∷ ks) =
    not (is_empty k.word) && (unsplit (split_at pipe k.word) && sendable_words ks)

sendable_words_sound : (ks : List GameCard) → sendable_words ks ≡ true → All IsSendable ks
unfolding sendable_words
sendable_words_sound [] e = tt
sendable_words_sound (k ∷ ks) e = (
  (ground arith, split_at-none-Lacks pipe k.word (unsplit_sound _ (ground arith))),
  sendable_words_sound ks (ground arith),
)

-- The new game, and red's spymaster gives a hint.
abbrev begun : Room
begun = (start_game none unshuffled 7 demo_room).0

begun-Listens : Listens 2 begun
begun-Listens =
    rw
      (
        started_game_sessions none unshuffled unshuffled-Perm 7 demo_room demo_count,
        started_game_players none unshuffled unshuffled-Perm 7 demo_room demo_count,
      )
      refl

begun-Run : Run 2 begun (handle_game_packet hint_packet.session hint_packet.content begun)
begun-Run =
    packet_step {q = begun} hint_packet.session hint_packet.content (begin refl) begun-Listens refl

abbrev hinted_room : Room
hinted_room = handle_game_packet hint_packet.session hint_packet.content begun

hinted-whole : is_whole 2 hinted_room.world.log ≡ true
unfolding get_player_count find_player_index holds_nickname slot send_game_state broadcast_to_all
    turn_update_message send_all_cards_to_all broadcast_game_system_message system_message
    send_game_init create_game_init_message broadcast_each card_update_message deliver flag
    init_entries init_entry send_all_cards_each all_cards_message card_fields packet payload fields
    post_send modify update team_num phase_num card_type_num bytes_eq digits read_digits starts_with
    stoi to_string text is_empty split_at to_string_ℕ perform hint_message hinted is_missing
    is_valid_player_for_hint player_name player_session process_hint handle_game_packet
    parse_request parse_hint phased switch_phase is_whole start_game initialize_game reset
    load_word_list assign_cards
hinted-whole = refl

start_game-Mirrors_example :
    Mirrors hinted_room.game (watch counting 2 hinted_room.world.log lobby_client).state
unfolding initialize_game reset load_word_list assign_cards sendable_words text is_empty split_at
    unsplit all_cards_message card_fields to_string_ℕ fields card_type_num
start_game-Mirrors_example =
    start_game-Mirrors counting 2 lobby_client none unshuffled 7 demo_room unshuffled-Perm
      demo_seats demo_count refl
      (sendable_words_sound (initialize_game none unshuffled demo_room.game).cards refl)
      (refl, omega arith) begun-Run hinted-whole
