-- ===== src/Client/Mirror.antt =====
-- What the client has on its screen of a game on the server: the cards, the turn, the phase of the
-- turn, and whether the game is over. Receives has the limit of the client's receives; the other
-- modules are about a client that gets each message of Session::PostSend as one packet, in the order
-- of the sends.
pub mod Replay
pub mod Messages
pub mod Sizes
pub mod Turns
pub mod Answers
pub mod Games
pub mod Start
pub mod Runs
pub mod Receives
use codenames_cpp_vibecoding.Prelude.{
  ℕ, ◌==◌, ◌≡◌, true, Bool, false, List, [], ◌∷◌, map, if◌then◌else◌, ℤ, pos,
}
use codenames_cpp_vibecoding.Text.{Bytes}
use codenames_cpp_vibecoding.Session.{World, Effect, sent, saved}
use codenames_cpp_vibecoding.Game.{Game, Room, team_num, phase_num}
use codenames_cpp_vibecoding.Game.Broadcast.Delivery.{recipients}
use codenames_cpp_vibecoding.Client.{ClientPhase, result, GameState, Client, Notice}
use codenames_cpp_vibecoding.Client.Packets.Cards.{shown}
use codenames_cpp_vibecoding.Client.Packets.Dispatch.{process_packet}

pub record Mirrors (g : Game) (s : GameState) : Type 0 where
  pub cards : s.cards ≡ map shown g.cards
  pub turn : s.current_turn ≡ pos (team_num g.current_turn)
  pub step : s.in_game_step ≡ pos (phase_num g.current_phase)
  pub over : g.game_over ≡ true → s.current_phase ≡ result

-- The session is among those that a message goes to.
abbrev pub is_among : ℕ → List ℕ → Bool
is_among me [] = false
is_among me (p ∷ ps) = if p == me then true else is_among me ps

-- The session sits in an open slot of the room.
abbrev pub Listens : ℕ → Room → Type 0
Listens me r = is_among me (recipients r.world.sessions r.game.players) ≡ true

module _ {O : Type 0} (on : Notice → GameState → O → O) where
  -- The client of the session `me`, which processes each message that was sent to it as a packet.
  unfoldable pub replay : ℕ → List Effect → Client O → Client O
  replay me [] c = c
  replay me (sent p m ∷ es) c = replay me es (if p == me then process_packet on m c else c)
  replay me (saved name outcome ∷ es) c = replay me es c

  -- What the message makes of a client with the first property has the second.
  abbrev pub Hears : (GameState → Type 0) → (GameState → Type 0) → Bytes → Type 0
  Hears P Q m = (c : Client O) → P c.state → Q (process_packet on m c).state

  -- The game state of the client after all that has been sent.
  abbrev pub view : ℕ → Client O → World → GameState
  view me c w = (replay me w.log c).state

  -- The client mirrors the game of the room.
  abbrev pub Synced : ℕ → Client O → Room → Type 0
  Synced me c r = Mirrors r.game (view me c r.world)
