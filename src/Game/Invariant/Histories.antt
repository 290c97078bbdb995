-- ===== src/Game/Invariant/Histories.antt =====
-- The invariant over a whole game: packets in any order, from any sessions, with the sessions
-- changed in any way between two packets.
use codenames_cpp_vibecoding.Prelude.{ℕ, List, [], ◌∷◌, inl, inr, Option}
use codenames_cpp_vibecoding.Text.{Bytes}
use codenames_cpp_vibecoding.Session.{World}
use codenames_cpp_vibecoding.Game.{Game}
use codenames_cpp_vibecoding.Game.Play.{handle_game_packet}
use codenames_cpp_vibecoding.Game.Play.Answer.{find_card-some}
use codenames_cpp_vibecoding.Game.Play.Packets.{Rule, hints, reveals, Move, handle_game_packet-Move}
use codenames_cpp_vibecoding.Game.Invariant.{Inv}
use codenames_cpp_vibecoding.Game.Invariant.Steps.{hint-Inv, reveal-Inv}

-- A packet, its session, and the world in which it is handled.
pub record Packet : Type 0 where
  pub session : Option ℕ
  pub content : Bytes
  pub seen : World

unfoldable pub receive : Packet → Game → Game
receive e g = (handle_game_packet e.session e.content (record { game = g; world = e.seen })).game

unfoldable pub play : List Packet → Game → Game
play [] g = g
play (e ∷ es) g = play es (receive e g)

pub receive-Move : (e : Packet) (g : Game) → Move g (receive e g)
unfolding receive
receive-Move e g = handle_game_packet-Move e.session e.content _

Rule-Inv : {g h : Game} → Rule g h → Inv g → Inv h
Rule-Inv (hints n p word number here leads to_move phase live e) v =
    rw e (hint-Inv word number _ phase v)
Rule-Inv {g} (reveals n p word i c here guesses to_move phase tries live found e) v =
    let (at, same, down) = find_card-some word g.cards i c found in
    rw e (reveal-Inv g i c at down live phase v)

pub Move-Inv : {g h : Game} → Move g h → Inv g → Inv h
Move-Inv (inl e) v = rw e v
Move-Inv (inr m) v = Rule-Inv m v

-- Where the invariant holds, it holds after any packets.
pub play-Inv : (es : List Packet) (g : Game) → Inv g → Inv (play es g)
unfolding play
play-Inv [] g v = v
play-Inv (e ∷ es) g v = play-Inv es (receive e g) (Move-Inv (receive-Move e g) v)
