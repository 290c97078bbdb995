-- ===== src/Game/Broadcast/Delivery.antt =====
-- Who receives a broadcast, and what a broadcast leaves alone.
use codenames_cpp_vibecoding.Prelude.{
  ℕ, ◌≡◌, refl, ◌∙◌, sym, arith, List, [], ◌∷◌, ◌++◌, map, Option, none, some, if◌then◌else◌,
  Bool-cases, inl, inr, ℤ, pos, negsuc, get_elem?, Option-cases,
}
use mathlib.Core.List.{append-nil, append_assoc}
use codenames_cpp_vibecoding.Text.{Bytes, is_empty}
use codenames_cpp_vibecoding.Session.{World, Session, Effect, sent}
use codenames_cpp_vibecoding.Session.Sending.{Fits, post_send_sessions, post_send_log}
use codenames_cpp_vibecoding.Game.{GamePlayer, Room, Team, same_team}
use codenames_cpp_vibecoding.Game.Broadcast.{
  deliver, broadcast_each, broadcast_to_all, broadcast_team_each, broadcast_to_team,
  broadcast_game_system_message, system_message, send_card_update, card_update_message,
  send_all_cards_each, send_all_cards_to_all, all_cards_message,
}

pub deliver_sessions :
    (m : Bytes) (o : Option ℕ) (w : World) → (deliver m o w).sessions ≡ w.sessions
unfolding deliver
deliver_sessions m none w = refl
deliver_sessions m (some s) w = ground (arith, post_send_sessions s m w)

pub broadcast_each_sessions :
    (m : Bytes) (ps : List GamePlayer) (w : World) → (broadcast_each m ps w).sessions ≡ w.sessions
unfolding broadcast_each
broadcast_each_sessions m [] w = refl
broadcast_each_sessions m (p ∷ ps) w =
    broadcast_each_sessions m ps (deliver m p.session w) ∙ deliver_sessions m p.session w

send_all_cards_each_sessions :
    (m : Bytes) (ps : List GamePlayer) (w : World)
    → (send_all_cards_each m ps w).sessions ≡ w.sessions
unfolding send_all_cards_each
send_all_cards_each_sessions m [] w = refl
send_all_cards_each_sessions m (p ∷ ps) w =
    send_all_cards_each_sessions m ps (deliver m p.session w) ∙ deliver_sessions m p.session w

pub send_all_cards_to_all_sessions :
    (r : Room) → (send_all_cards_to_all r).world.sessions ≡ r.world.sessions
unfolding send_all_cards_to_all
send_all_cards_to_all_sessions r =
    send_all_cards_each_sessions (all_cards_message r.game) r.game.players r.world

pub broadcast_game : (m : Bytes) (r : Room) → (broadcast_to_all m r).game ≡ r.game
unfolding broadcast_to_all
broadcast_game m r = ground arith

pub broadcast_sessions :
    (m : Bytes) (r : Room) → (broadcast_to_all m r).world.sessions ≡ r.world.sessions
unfolding broadcast_to_all
broadcast_sessions m r = elim (Bool-cases (is_empty m)) [
  | inl e ↦ rw (e, broadcast_to_all)
  | inr e ↦ rw (e, broadcast_to_all) (broadcast_each_sessions m r.game.players r.world)
]

-- The seated sessions that are not closed, slot by slot.
abbrev open_one : (ℕ → Session) → Option ℕ → List ℕ → List ℕ
open_one h none rest = rest
open_one h (some s) rest = if (h s).is_closed then rest else s ∷ rest

abbrev pub recipients : (ℕ → Session) → List GamePlayer → List ℕ
recipients h [] = []
recipients h (p ∷ ps) = open_one h p.session (recipients h ps)

abbrev pub mail : Bytes → List ℕ → List Effect
mail m = map (λ s. sent s m)

deliver_log :
    (m : Bytes) (o : Option ℕ) (w : World) (rest : List ℕ)
    → Fits m
    → (deliver m o w).log ++ mail m rest ≡ w.log ++ mail m (open_one w.sessions o rest)
unfolding deliver
deliver_log m none w rest f = refl
deliver_log m (some s) w rest f = elim (Bool-cases (w.sessions s).is_closed) [
  | inl e ↦ rw e
  | inr e ↦ rw e (rw (post_send_log s m w f) (append_assoc w.log (sent s m ∷ []) (mail m rest)))
]

broadcast_each_log :
    (m : Bytes) (ps : List GamePlayer) (w : World)
    → Fits m
    → (broadcast_each m ps w).log ≡ w.log ++ mail m (recipients w.sessions ps)
unfolding broadcast_each
broadcast_each_log m [] w f = sym (append-nil w.log)
broadcast_each_log m (p ∷ ps) w f =
    broadcast_each_log m ps (deliver m p.session w) f
    ∙ rw (deliver_sessions m p.session w) (deliver_log m p.session w (recipients w.sessions ps) f)

-- A broadcast that fits the buffer is sent once to each slot whose session is open, in the order
-- of the slots, and to nobody else.
pub broadcast_log :
    (m : Bytes) (r : Room)
    → Fits m
    → (broadcast_to_all m r).world.log
      ≡ r.world.log ++ mail m (recipients r.world.sessions r.game.players)
unfolding broadcast_to_all
broadcast_log m r f = rw (f.0, broadcast_to_all) (broadcast_each_log m r.game.players r.world f)

pub broadcast_game_system_message_game :
    (m : Bytes) (r : Room) → (broadcast_game_system_message m r).game ≡ r.game
unfolding broadcast_game_system_message
broadcast_game_system_message_game m r = broadcast_game (system_message m) r

pub broadcast_game_system_message_sessions :
    (m : Bytes) (r : Room) → (broadcast_game_system_message m r).world.sessions ≡ r.world.sessions
unfolding broadcast_game_system_message
broadcast_game_system_message_sessions m r = broadcast_sessions (system_message m) r

pub send_card_update_game : (i : ℤ) (r : Room) → (send_card_update i r).game ≡ r.game
unfolding send_card_update
send_card_update_game (negsuc i) r = refl
send_card_update_game (pos i) r = elim (Option-cases (get_elem? r.game.cards i)) [
  | inl e ↦ rw (e, send_card_update) (ground arith)
  | inr (c, e) ↦
      rw (e, send_card_update)
        (ground (arith, broadcast_game (card_update_message i c r.game.remaining_tries) r))
]

pub send_card_update_sessions :
    (i : ℤ) (r : Room) → (send_card_update i r).world.sessions ≡ r.world.sessions
unfolding send_card_update
send_card_update_sessions (negsuc i) r = refl
send_card_update_sessions (pos i) r = elim (Option-cases (get_elem? r.game.cards i)) [
  | inl e ↦ rw (e, send_card_update) (ground arith)
  | inr (c, e) ↦
      rw (e, send_card_update)
        (ground (arith, broadcast_sessions (card_update_message i c r.game.remaining_tries) r))
]

-- The slots of one team, in order.
abbrev pub team_of : Team → List GamePlayer → List GamePlayer
team_of t [] = []
team_of t (p ∷ ps) = let rest = team_of t ps in if same_team p.team t then p ∷ rest else rest

broadcast_team_each-team_of :
    (t : Team) (m : Bytes) (ps : List GamePlayer) (w : World)
    → broadcast_team_each t m ps w ≡ broadcast_each m (team_of t ps) w
unfolding broadcast_team_each broadcast_each
broadcast_team_each-team_of t m [] w = refl
broadcast_team_each-team_of t m (p ∷ ps) w = elim (Bool-cases (same_team p.team t)) [
  | inl e ↦ rw e (broadcast_team_each-team_of t m ps (deliver m p.session w))
  | inr e ↦ rw e (broadcast_team_each-team_of t m ps w)
]

-- A broadcast to a team is sent once to each open session of that team, and to nobody else.
pub broadcast_to_team_log :
    (t : Team) (m : Bytes) (r : Room)
    → Fits m
    → (broadcast_to_team t m r).world.log
      ≡ r.world.log ++ mail m (recipients r.world.sessions (team_of t r.game.players))
unfolding broadcast_to_team
broadcast_to_team_log t m r f =
    rw (f.0, broadcast_to_team)
      (rw (broadcast_team_each-team_of t m r.game.players r.world)
        (broadcast_each_log m (team_of t r.game.players) r.world f))
