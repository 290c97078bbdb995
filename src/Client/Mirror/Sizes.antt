-- ===== src/Client/Mirror/Sizes.antt =====
-- The messages that keep the client up to date fit the server's send buffer.
use codenames_cpp_vibecoding.Prelude.{
  ℕ, ◌+◌, ◌≤◌, ◌≡◌, refl, arith, Bool, true, false, List, [], ◌∷◌, ℤ, length,
}
use codenames_cpp_vibecoding.Text.{Bytes, text, is_empty, max_int}
use codenames_cpp_vibecoding.Text.Decimal.{IsInt}
use codenames_cpp_vibecoding.Text.Numbers.{to_string-short, to_string_ℕ-short}
use codenames_cpp_vibecoding.Protocol.{packet, pkt_turn_update, pkt_card_update, pkt_game_over}
use codenames_cpp_vibecoding.Protocol.Sizes.{total, length-packet}
use codenames_cpp_vibecoding.Session.Sending.{Fits}
use codenames_cpp_vibecoding.Game.{
  Game, GameCard, Team, red, blue, system, GamePhase, hint_phase, guess_phase, team_num, phase_num,
}
use codenames_cpp_vibecoding.Game.Broadcast.{turn_update_message, card_update_message, flag}
use codenames_cpp_vibecoding.Game.Turns.{game_over_message}

packet-Fits :
    (tag : Bytes) (fs : List Bytes)
    → is_empty tag ≡ false
    → length tag + total fs ≤ 4096
    → Fits (packet tag fs)
unfolding packet is_empty
packet-Fits [] fs full h = cc
packet-Fits (c ∷ tag) fs full h = (refl, omega (arith, length-packet (c ∷ tag) fs))

team_num_small : (t : Team) → team_num t ≤ max_int
unfolding team_num
team_num_small red = omega arith
team_num_small blue = omega arith
team_num_small system = omega arith

phase_num_small : (p : GamePhase) → phase_num p ≤ max_int
unfolding phase_num
phase_num_small hint_phase = omega arith
phase_num_small guess_phase = omega arith

flag_small : (b : Bool) → flag b ≤ max_int
unfolding flag
flag_small true = omega arith
flag_small false = omega arith

pub turn_update-Fits :
    (g : Game) → g.red_score ≤ max_int → g.blue_score ≤ max_int → Fits (turn_update_message g)
unfolding turn_update_message text is_empty
turn_update-Fits g hr hb =
    let t = to_string_ℕ-short (team_num g.current_turn) (team_num_small g.current_turn) in
    let p = to_string_ℕ-short (phase_num g.current_phase) (phase_num_small g.current_phase) in
    let r = to_string_ℕ-short g.red_score hr in
    let b = to_string_ℕ-short g.blue_score hb in packet-Fits pkt_turn_update _ refl (omega arith)

pub card_update-Fits :
    (i : ℕ) (c : GameCard) (tries : ℤ)
    → i ≤ max_int
    → IsInt tries
    → Fits (card_update_message i c tries)
unfolding card_update_message text is_empty
card_update-Fits i c tries hi ht =
    let index = to_string_ℕ-short i hi in
    let used = to_string_ℕ-short (flag c.is_used) (flag_small c.is_used) in
    let left = to_string-short tries ht in packet-Fits pkt_card_update _ refl (omega arith)

pub game_over-Fits : (winner : Team) → Fits (game_over_message winner)
unfolding game_over_message text is_empty
game_over-Fits winner =
    let w = to_string_ℕ-short (team_num winner) (team_num_small winner) in
    packet-Fits pkt_game_over _ refl (omega arith)
