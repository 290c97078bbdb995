-- ===== src/Game/Invariant/Length.antt =====
-- How long a game can last: each move turns a card over or passes from the hint to the guesses.
use codenames_cpp_vibecoding.Prelude.{
  ℕ, suc, ◌+◌, ◌*◌, ◌≤◌, ◌<◌, ◌≡◌, refl, arith, true, false, not, List, [], ◌∷◌, inl, inr, ℤ, some,
  get_elem?, count_if, count_if-set, count_if-le-length, length,
}
use codenames_cpp_vibecoding.Text.{Bytes}
use codenames_cpp_vibecoding.Game.{
  Game, GameCard, GamePhase, CardType, red_card, hint_phase, guess_phase, max_cards,
}
use codenames_cpp_vibecoding.Game.Turns.{phased, turned}
use codenames_cpp_vibecoding.Game.Cards.{reveal}
use codenames_cpp_vibecoding.Game.Play.{hinted}
use codenames_cpp_vibecoding.Game.Play.Answer.{concluded, find_card-some}
use codenames_cpp_vibecoding.Game.Play.Packets.{Rule, hints, reveals}
use codenames_cpp_vibecoding.Game.Invariant.Histories.{Packet, receive, play, receive-Move}

abbrev pub face_down : List GameCard → ℕ
face_down = count_if (λ c. not c.is_used)

abbrev phase_steps : GamePhase → ℕ
phase_steps hint_phase = 1
phase_steps guess_phase = 0

-- The moves that are left at most.
abbrev pub moves_left : Game → ℕ
moves_left g = 2 * face_down g.cards + phase_steps g.current_phase

-- What each packet of a list does to a game that receives them in order: `k` of them make a move by
-- the rules, and all others leave the game as it is.
pub data Course : ℕ → List Packet → Game → Type 0 where
  over : {g : Game} → Course 0 [] g
  idle :
      {k : ℕ} {e : Packet} {es : List Packet} {g : Game}
      → receive e g ≡ g
      → Course k es g
      → Course k (e ∷ es) g
  move :
      {k : ℕ} {e : Packet} {es : List Packet} {g : Game}
      → Rule g (receive e g)
      → Course k es (receive e g)
      → Course (suc k) (e ∷ es) g

hint_left :
    (word : Bytes) (n : ℤ) (g : Game)
    → g.current_phase ≡ hint_phase
    → moves_left (phased (hinted word n g)) < moves_left g
unfolding phased hinted
hint_left word n g p = ground arith

reveal_left :
    (t : CardType) (g : Game) (i : ℕ) (c : GameCard)
    → c.card_type ≡ t
    → get_elem? g.cards i ≡ some c
    → c.is_used ≡ false
    → moves_left (concluded (reveal i c g)) < moves_left g
unfolding concluded reveal turned
reveal_left red_card g i c k e u =
    ground (arith, count_if-set (λ c. not c.is_used) g.cards i (record c { is_used = true }) e)
reveal_left _ g i c k e u =
    ground (arith, count_if-set (λ c. not c.is_used) g.cards i (record c { is_used = true }) e)

Rule-left : {g h : Game} → Rule g h → moves_left h < moves_left g
Rule-left (hints n p word number here leads to_move phase live e) =
    rw e (hint_left word number _ phase)
Rule-left {g} (reveals n p word i c here guesses to_move phase tries live found e) =
    let (at, same, down) = find_card-some word g.cards i c found in
    rw e (reveal_left c.card_type g i c refl at down)

-- Each move uses up one of the moves that are left.
Course-left :
    {k : ℕ} {es : List Packet} {g : Game}
    → Course k es g
    → k + moves_left (play es g) ≤ moves_left g
unfolding play
Course-left over = omega arith
Course-left {es = e ∷ es} (idle same c) = rw (same, play) (Course-left c)
Course-left (move m c) = omega (arith, Rule-left m, Course-left c)

play-Course : (es : List Packet) (g : Game) → (k : ℕ) × Course k es g
play-Course [] g = (0, over)
play-Course (e ∷ es) g = elim (receive-Move e g) [
  | inl same ↦ let (k, c) = play-Course es g in (k, idle same c)
  | inr m ↦ let (k, c) = play-Course es (receive e g) in (suc k, move m c)
]

-- Of the packets that a game of 25 cards receives, whatever they are, at most 51 make a move by the
-- rules, and each other packet leaves the game as it is.
pub play_at_most_51-Course :
    (es : List Packet) (g : Game) → length g.cards ≡ max_cards → (k : ℕ) × Course k es g × (k ≤ 51)
play_at_most_51-Course es g b =
    let (k, c) = play-Course es g in
    (k, c, ground (arith, Course-left c, count_if-le-length (λ c. not c.is_used) g.cards))
