-- ===== src/Game/Invariant/Frozen.antt =====
-- Games in which no packet changes anything: those that are over, and those whose hint left the
-- guessing team no try.
use codenames_cpp_vibecoding.Prelude.{
  ◌≡◌, refl, ◌∙◌, arith, true, false, List, [], ◌∷◌, inl, inr, ℤ, is_nonpos, ap,
}
use codenames_cpp_vibecoding.Text.{Bytes}
use codenames_cpp_vibecoding.Game.{Game, Room, hint_phase, guess_phase}
use codenames_cpp_vibecoding.Game.Broadcast.Delivery.{broadcast_game}
use codenames_cpp_vibecoding.Game.Turns.{phased}
use codenames_cpp_vibecoding.Game.Turns.Ending.{switch_phase_game}
use codenames_cpp_vibecoding.Game.Play.{process_hint, hinted, is_valid_player_for_hint}
use codenames_cpp_vibecoding.Game.Play.Guards.{MayHint, is_valid_player_for_hint_iff}
use codenames_cpp_vibecoding.Game.Play.Packets.{Rule, hints, reveals}
use codenames_cpp_vibecoding.Game.Invariant.Histories.{Packet, receive, play, receive-Move}

-- A guess phase without a try left, in a game that goes on.
abbrev pub IsStuck : Game → Type 0
IsStuck g = (g.current_phase ≡ guess_phase) × (is_nonpos g.remaining_tries ≡ true)

Rule-over : {g h : Game} → Rule g h → g.game_over ≡ true → ⊥
Rule-over (hints n p word number here leads to_move phase live e) o = cc
Rule-over (reveals n p word i c here guesses to_move phase tries live found e) o = cc

Rule-stuck : {g h : Game} → Rule g h → IsStuck g → ⊥
Rule-stuck (hints n p word number here leads to_move phase live e) s = ground arith
Rule-stuck (reveals n p word i c here guesses to_move phase tries live found e) s = ground arith

play_idle : (g : Game) → ((h : Game) → Rule g h → ⊥) → (es : List Packet) → play es g ≡ g
unfolding play
play_idle g frozen [] = refl
play_idle g frozen (e ∷ es) = elim (receive-Move e g) [
  | inl same ↦ rw same (play_idle g frozen es)
  | inr m ↦ absurd (frozen (receive e g) m)
]

-- A game that is over stays as it is, whatever packets arrive.
pub play_over : (g : Game) (es : List Packet) → g.game_over ≡ true → play es g ≡ g
play_over g es o = play_idle g (λ h m. Rule-over m o) es

play_stuck : (g : Game) (es : List Packet) → IsStuck g → play es g ≡ g
play_stuck g es s = play_idle g (λ h m. Rule-stuck m s) es

process_hint_game :
    (i : ℤ) (word : Bytes) (n : ℤ) (r : Room)
    → is_valid_player_for_hint i r.game r.world ≡ true
    → (process_hint i word n r).0.game ≡ phased (hinted word n r.game)
unfolding process_hint
process_hint_game i word n r e =
    rw (e, process_hint) (switch_phase_game _ ∙ ap phased (broadcast_game _ _))

phased-IsStuck :
    (word : Bytes) (n : ℤ) (g : Game)
    → g.current_phase ≡ hint_phase
    → g.game_over ≡ false
    → is_nonpos n ≡ true
    → IsStuck (phased (hinted word n g)) × ((phased (hinted word n g)).game_over ≡ false)
unfolding phased hinted
phased-IsStuck word n g p o e = ground arith

-- A hint with a number of 0 or less is accepted, and the game then neither ends nor changes any
-- more, whatever packets arrive.
pub hint_nonpos_freezes :
    (i : ℤ) (word : Bytes) (n : ℤ) (r : Room) (es : List Packet)
    → MayHint i r.game r.world
    → is_nonpos n ≡ true
    → let h = (process_hint i word n r).0.game in
      (play es h ≡ h) × (h.game_over ≡ false) × (h.current_phase ≡ guess_phase)
hint_nonpos_freezes i word n r es m e =
    let frozen = phased-IsStuck word n r.game m.phase m.running e in
    rw (process_hint_game i word n r ((is_valid_player_for_hint_iff i r.game r.world).1 m))
      (play_stuck _ es frozen.0, frozen.1, frozen.0.0)
