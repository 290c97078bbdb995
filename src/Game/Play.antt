-- ===== src/Game/Play.antt =====
-- What players do, in GameManager.cpp: IsValidPlayerForHint, IsValidPlayerForAnswer, ProcessHint,
-- ProcessAnswer, ProcessChat and HandleGamePacket.
pub mod Guards
pub mod Answer
pub mod Packets
use codenames_cpp_vibecoding.Prelude.{
  ℕ, suc, ◌+◌, Bool, true, false, ◌&&◌, ◌||◌, not, List, [], ◌∷◌, ◌++◌, Option, none, some,
  if◌then◌else◌, set, ℤ, pos, negsuc, pred_ℤ, is_nonpos,
}
use codenames_cpp_vibecoding.Text.{
  Bytes, text, is_empty, bytes_eq, starts_with, split_at, pipe, to_string_ℕ, to_string, stoi,
}
use codenames_cpp_vibecoding.Protocol.{
  pkt_hint_msg, pkt_answer, pkt_chat, pkt_answer_result, packet, payload,
}
use codenames_cpp_vibecoding.Session.{World, post_send}
use codenames_cpp_vibecoding.Game.{
  Game, GamePlayer, GameCard, Room, Team, red, blue, system, CardType, red_card, blue_card, neutral,
  assassin, is_hint_phase, is_spymaster, same_team, team_num, with_game,
}
use codenames_cpp_vibecoding.Game.Roster.{slot, find_player_index}
use codenames_cpp_vibecoding.Game.Broadcast.{broadcast_to_all, send_card_update}
use codenames_cpp_vibecoding.Game.Turns.{
  next_team, switch_turn, switch_phase, check_winner, end_game,
}
use codenames_cpp_vibecoding.Game.Cards.{is_open, find_card, Verdict, verdict, reveal}
use codenames_cpp_vibecoding.Game.Requests.{
  parse_hint, Request, hint, bad_hint, answer, chat, unknown, parse_request,
}

-- The tests behind the range check, on the slot that the index names.
hint_slot : Game → World → GamePlayer → Bool
hint_slot g w p = elim p.session [
  | none ↦ false
  | some s ↦
      not (w.sessions s).is_closed
      && (same_team p.team g.current_turn && (is_hint_phase g.current_phase && is_spymaster p.role))
]

unfoldable pub is_valid_player_for_hint : ℤ → Game → World → Bool
unfolding hint_slot slot
is_valid_player_for_hint i g w =
    if g.game_over then false else elim (slot g i) [ none ↦ false | some p ↦ hint_slot g w p ]

answer_slot : Game → World → GamePlayer → Bool
answer_slot g w p = elim p.session [
  | none ↦ false
  | some s ↦
      not (w.sessions s).is_closed
      && (not (is_spymaster p.role)
          && (same_team p.team g.current_turn
              && (not (is_hint_phase g.current_phase) && not (is_nonpos g.remaining_tries))))
]

unfoldable pub is_valid_player_for_answer : ℤ → Game → World → Bool
unfolding answer_slot slot
is_valid_player_for_answer i g w =
    if g.game_over then false else elim (slot g i) [ none ↦ false | some p ↦ answer_slot g w p ]

unfoldable pub hint_message : Game → Bytes → ℤ → Bytes
hint_message g word number =
    packet pkt_hint_msg (to_string_ℕ (team_num g.current_turn) ∷ word ∷ to_string number ∷ [])

-- The assignments of ProcessHint.
unfoldable pub hinted : Bytes → ℤ → Game → Game
hinted word number g = record g { hint_word = word; hint_count = number; remaining_tries = number }

unfoldable pub process_hint : ℤ → Bytes → ℤ → Room → Room × Bool
unfolding hinted
process_hint i word number r =
    if is_valid_player_for_hint i r.game r.world
    then (
      switch_phase (
          broadcast_to_all (hint_message r.game word number)
            (with_game r (hinted word number r.game))),
      true,
    )
    else (r, false)

unfoldable pub remark_message : Bytes → Bytes → Bytes
remark_message name remark =
    packet pkt_chat (text "2" ∷ text "0" ∷ text "시스템" ∷ (name ++ remark) ∷ [])

pub is_assassin : CardType → Bool
is_assassin assassin = true
is_assassin _ = false

abbrev pub is_system : Team → Bool
is_system system = true
is_system _ = false

-- The rest of ProcessAnswer, when the messages are out.
unfoldable pub conclude : CardType → Verdict → Room → Room
unfolding is_assassin
conclude t v r =
    let winner = check_winner r.game in
    if not (is_system winner) || v.game_ends
    then (if is_assassin t then end_game (next_team r.game.current_turn) r else end_game winner r)
    else if v.turn_ends
    then switch_turn r
    else r

unfoldable pub answer_card : Bytes → ℕ → GameCard → Room → Room
unfolding reveal
answer_card name i c r =
    let v = reveal i c r.game in
    conclude c.card_type v (
      broadcast_to_all (remark_message name v.remark)
        (send_card_update (pos i) (with_game r v.game)))

-- GetNickname, and the session to which an invalid word is reported.
unfoldable pub player_session : Game → ℤ → Option ℕ
unfolding slot
player_session g i = elim (slot g i) [ none ↦ none | some p ↦ p.session ]

unfoldable pub player_name : ℤ → Room → Bytes
unfolding player_session
player_name i r = elim (player_session r.game i) [
  | none ↦ []
  | some s ↦ (r.world.sessions s).username
]

-- "INVALID" goes to the player who answered, open or closed.
unfoldable pub refuse_word : ℤ → Bytes → Room → Room
refuse_word i word r = elim (player_session r.game i) [
  | none ↦ r
  | some s ↦ record r {
    world = post_send s (packet pkt_answer_result (text "INVALID" ∷ word ∷ [])) r.world;
  }
]

unfoldable pub process_answer : ℤ → Bytes → Room → Room × Bool
unfolding refuse_word
process_answer i word r =
    if is_valid_player_for_answer i r.game r.world
    then elim (find_card word r.game.cards) [
      | none ↦ (refuse_word i word r, false)
      | some (k, c) ↦ (answer_card (player_name i r) k c r, true)
    ]
    else (r, false)

unfoldable pub chat_message : GamePlayer → ℤ → Bytes → Bytes → Bytes
chat_message p i name message =
    packet pkt_chat (to_string_ℕ (team_num p.team) ∷ to_string i ∷ name ∷ message ∷ [])

unfoldable pub chat_from : ℤ → Bytes → Room → GamePlayer → Room × Bool
chat_from i message r p = elim p.session [
  | none ↦ (r, false)
  | some s ↦
      if (r.world.sessions s).is_closed || is_empty message
      then (r, false)
      else (broadcast_to_all (chat_message p i (r.world.sessions s).username message) r, true)
]

unfoldable pub process_chat : ℤ → Bytes → Room → Room × Bool
unfolding chat_from
process_chat i message r =
    if r.game.game_over
    then (r, false)
    else elim (slot r.game i) [ none ↦ (r, false) | some p ↦ chat_from i message r p ]

-- The handler's calls; their results are not read.
unfoldable pub perform : ℤ → Request → Room → Room
perform i (hint word number) r = (process_hint i word number r).0
perform i bad_hint r = r
perform i (answer word) r = (process_answer i word r).0
perform i (chat m) r = (process_chat i m r).0
perform i unknown r = r

-- `playerIndex == -1`
unfoldable pub is_missing : ℤ → Bool
is_missing (negsuc i) = true
is_missing (pos i) = false

-- `none` is the null session.
unfoldable pub handle_game_packet : Option ℕ → Bytes → Room → Room
unfolding is_missing
handle_game_packet none packet_data r = r
handle_game_packet (some s) packet_data r =
    if (r.world.sessions s).is_closed || is_empty packet_data
    then r
    else let i = find_player_index (r.world.sessions s).username r.game r.world in
      if is_missing i then r else perform i (parse_request packet_data) r
