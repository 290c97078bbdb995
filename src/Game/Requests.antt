-- ===== src/Game/Requests.antt =====
-- The packets that HandleGamePacket in GameManager.cpp understands.
pub mod Reading
use codenames_cpp_vibecoding.Prelude.{
  ℕ, suc, ◌+◌, Bool, true, false, ◌&&◌, ◌||◌, not, List, [], ◌∷◌, ◌++◌, Option, none, some,
  if◌then◌else◌, set, ℤ, pos, negsuc, pred_ℤ, is_nonpos,
}
use codenames_cpp_vibecoding.Text.{
  Bytes, text, is_empty, bytes_eq, starts_with, split_at, pipe, to_string_ℕ, to_string, stoi,
}
use codenames_cpp_vibecoding.Protocol.{
  pkt_hint_msg, pkt_answer, pkt_chat, pkt_answer_result, packet, payload,
}
use codenames_cpp_vibecoding.Session.{World, post_send}
use codenames_cpp_vibecoding.Game.{
  Game, GamePlayer, GameCard, Room, Team, red, blue, system, CardType, red_card, blue_card, neutral,
  assassin, is_hint_phase, is_spymaster, same_team, team_num, with_game,
}
use codenames_cpp_vibecoding.Game.Roster.{slot, find_player_index}
use codenames_cpp_vibecoding.Game.Broadcast.{broadcast_to_all, send_card_update}
use codenames_cpp_vibecoding.Game.Turns.{
  next_team, switch_turn, switch_phase, check_winner, end_game,
}

-- "word|number" behind the tag; `none` where there is no delimiter or `std::stoi` throws.
unfoldable pub parse_hint : Bytes → Option (Bytes × ℤ)
parse_hint params = elim (split_at pipe params) [
  | none ↦ none
  | some (word, number) ↦ elim (stoi number) [ none ↦ none | some n ↦ some (word, n) ]
]

-- What a packet asks for. The tags are tried in this order.
pub data Request : Type 0 where
  hint : Bytes → ℤ → Request
  bad_hint : Request
  answer : Bytes → Request
  chat : Bytes → Request
  unknown : Request

unfoldable pub parse_request : Bytes → Request
parse_request packet_data = elim (payload pkt_hint_msg packet_data) [
  | some params ↦ elim (parse_hint params) [ none ↦ bad_hint | some (w, n) ↦ hint w n ]
  | none ↦ elim (payload pkt_answer packet_data) [
    | some word ↦ answer word
    | none ↦ elim (payload pkt_chat packet_data) [ some m ↦ chat m | none ↦ unknown ]
  ]
]
