-- ===== src/Game/Invariant/Steps.antt =====
-- Each assignment of the game keeps the invariant.
use codenames_cpp_vibecoding.Prelude.{
  ℕ, ◌+◌, ◌≡◌, refl, arith, true, false, List, length-set, count_if-set, bit, get_elem?, set, ℤ,
  some,
}
use codenames_cpp_vibecoding.Text.{Bytes}
use codenames_cpp_vibecoding.Game.{
  Game, GameCard, CardType, red_card, blue_card, assassin, hint_phase, guess_phase,
}
use codenames_cpp_vibecoding.Game.Turns.{turned, phased, check_winner}
use codenames_cpp_vibecoding.Game.Cards.{reveal}
use codenames_cpp_vibecoding.Game.Play.{hinted}
use codenames_cpp_vibecoding.Game.Play.Answer.{concluded}
use codenames_cpp_vibecoding.Game.Invariant.{Inv, is_face_up, face_up}

-- A hint in the hint phase.
pub hint-Inv :
    (word : Bytes) (n : ℤ) (g : Game)
    → g.current_phase ≡ hint_phase
    → Inv g
    → Inv (phased (hinted word n g))
unfolding phased hinted
hint-Inv word n g e v = ground arith

-- Turning a card over adds it to the cards of its type that are face up.
face_up-reveal :
    (t : CardType) (cs : List GameCard) (i : ℕ) (c : GameCard)
    → get_elem? cs i ≡ some c
    → c.is_used ≡ false
    → face_up t (set cs i (record c { is_used = true }))
      ≡ face_up t cs + bit (is_face_up t (record c { is_used = true }))
face_up-reveal t cs i c e u =
    ground (arith, count_if-set (is_face_up t) cs i (record c { is_used = true }) e)

by_type :
    (t : CardType) (g : Game) (i : ℕ) (c : GameCard)
    → c.card_type ≡ t
    → get_elem? g.cards i ≡ some c
    → c.is_used ≡ false
    → g.game_over ≡ false
    → g.current_phase ≡ guess_phase
    → Inv g
    → Inv (concluded (reveal i c g))
unfolding reveal concluded check_winner turned
by_type red_card g i c k e u live phase v = ground (
  arith,
  face_up-reveal red_card g.cards i c e u,
  face_up-reveal blue_card g.cards i c e u,
  face_up-reveal assassin g.cards i c e u,
  length-set g.cards i (record c { is_used = true }),
)
by_type _ g i c k e u live phase v = ground (
  arith,
  face_up-reveal red_card g.cards i c e u,
  face_up-reveal blue_card g.cards i c e u,
  face_up-reveal assassin g.cards i c e u,
  length-set g.cards i (record c { is_used = true }),
)

pub reveal-Inv :
    (g : Game) (i : ℕ) (c : GameCard)
    → get_elem? g.cards i ≡ some c
    → c.is_used ≡ false
    → g.game_over ≡ false
    → g.current_phase ≡ guess_phase
    → Inv g
    → Inv (concluded (reveal i c g))
reveal-Inv g i c e u live phase v = by_type c.card_type g i c refl e u live phase v
