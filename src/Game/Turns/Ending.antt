-- ===== src/Game/Turns/Ending.antt =====
-- What the operations of the turn management do to the game, and what the end of a game does to
-- the sessions and the log.
use codenames_cpp_vibecoding.Prelude.{
  ℕ, ◌≡◌, refl, ◌∙◌, ap, arith, Bool, true, false, List, [], ◌∷◌, ◌++◌, Option, none, some,
  if◌then◌else◌, ◌==◌,
}
use codenames_cpp_vibecoding.Text.{Bytes, text}
use codenames_cpp_vibecoding.Session.{
  World, Session, Effect, saved, in_lobby, modify, set_state, set_game_manager,
}
use codenames_cpp_vibecoding.Session.Heap.{modify_sessions, modify_log}
use codenames_cpp_vibecoding.Game.{GamePlayer, Room, Team, red, blue, system, with_game}
use codenames_cpp_vibecoding.Game.Broadcast.{
  broadcast_to_all, broadcast_game_system_message, system_message, turn_update_message,
}
use codenames_cpp_vibecoding.Game.Broadcast.Delivery.{
  broadcast_game, broadcast_sessions, broadcast_game_system_message_game,
  broadcast_game_system_message_sessions,
}
use codenames_cpp_vibecoding.Game.Turns.{
  turned, phased, switch_turn, switch_phase, end_game, settle, save_one, save_results, release_one,
  release_players, game_over_message, winner_name,
}

pub switch_turn_game : (r : Room) → (switch_turn r).game ≡ turned r.game
unfolding switch_turn
switch_turn_game r =
    broadcast_game (turn_update_message (turned r.game)) (with_game r (turned r.game))

pub switch_turn_sessions : (r : Room) → (switch_turn r).world.sessions ≡ r.world.sessions
unfolding switch_turn
switch_turn_sessions r =
    broadcast_sessions (turn_update_message (turned r.game)) (with_game r (turned r.game))

pub switch_phase_game : (r : Room) → (switch_phase r).game ≡ phased r.game
unfolding switch_phase
switch_phase_game r =
    broadcast_game (turn_update_message (phased r.game)) (with_game r (phased r.game))

pub switch_phase_sessions : (r : Room) → (switch_phase r).world.sessions ≡ r.world.sessions
unfolding switch_phase
switch_phase_sessions r =
    broadcast_sessions (turn_update_message (phased r.game)) (with_game r (phased r.game))

-- The room when the two messages of EndGame are out.
unfoldable pub announced : Team → Room → Room
announced winner r = broadcast_to_all (game_over_message winner) (
    broadcast_game_system_message (winner_name winner ++ text "팀이 승리했습니다!")
      (with_game r (record (r.game) { game_over = true })))

announced_game :
    (winner : Team) (r : Room) → (announced winner r).game ≡ record (r.game) { game_over = true }
unfolding announced
announced_game winner r = broadcast_game _ _ ∙ broadcast_game_system_message_game _ _

announced_sessions :
    (winner : Team) (r : Room) → (announced winner r).world.sessions ≡ r.world.sessions
unfolding announced
announced_sessions winner r = broadcast_sessions _ _ ∙ broadcast_game_system_message_sessions _ _

pub end_game-announced :
    (winner : Team) (r : Room) → end_game winner r ≡ settle winner (announced winner r)
unfolding end_game announced
end_game-announced winner r = refl

settle_game : (winner : Team) (r : Room) → (settle winner r).game ≡ r.game
unfolding settle
settle_game winner r = refl

pub end_game_game :
    (winner : Team) (r : Room) → (end_game winner r).game ≡ record (r.game) { game_over = true }
end_game_game winner r =
    ap (λ q. q.game) (end_game-announced winner r)
    ∙ settle_game winner (announced winner r)
    ∙ announced_game winner r

-- A session that was sent back to the lobby.
abbrev pub sent_home : Session → Session
sent_home s = record s { current_state = in_lobby; game_manager = none }

abbrev sits : ℕ → Option ℕ → Bool
sits q none = false
sits q (some s) = q == s

-- The session sits in one of the slots.
abbrev pub is_seated : ℕ → List GamePlayer → Bool
is_seated q [] = false
is_seated q (p ∷ ps) = if sits q p.session then true else is_seated q ps

abbrev home_if : Bool → Session → Session
home_if b s = if b then sent_home s else s

release_one_sessions :
    (o : Option ℕ) (q : ℕ) (w : World)
    → (release_one o w).sessions q ≡ home_if (sits q o) (w.sessions q)
unfolding release_one
release_one_sessions none q w = refl
release_one_sessions (some s) q w = ground (
  arith,
  modify_sessions s q (set_game_manager none) (modify s (set_state in_lobby) w),
  modify_sessions s q (set_state in_lobby) w,
  modify_sessions s s (set_state in_lobby) w,
)

pub release_players_sessions :
    (ps : List GamePlayer) (q : ℕ) (w : World)
    → (release_players ps w).sessions q ≡ home_if (is_seated q ps) (w.sessions q)
unfolding release_players
release_players_sessions [] q w = refl
release_players_sessions (p ∷ ps) q w =
    release_players_sessions ps q (release_one p.session w)
    ∙ rw (release_one_sessions p.session q w)
        (home_twice (sits q p.session) (is_seated q ps) (w.sessions q))
  where
    home_twice :
        (a b : Bool) (s : Session) → home_if b (home_if a s) ≡ home_if (if a then true else b) s
    home_twice true true s = refl
    home_twice true false s = refl
    home_twice false b s = refl

release_one_log : (o : Option ℕ) (w : World) → (release_one o w).log ≡ w.log
unfolding release_one
release_one_log none w = refl
release_one_log (some s) w = modify_log _ _ _ ∙ modify_log _ _ _

pub release_players_log : (ps : List GamePlayer) (w : World) → (release_players ps w).log ≡ w.log
unfolding release_players
release_players_log [] w = refl
release_players_log (p ∷ ps) w =
    release_players_log ps (release_one p.session w) ∙ release_one_log p.session w

save_one_sessions :
    (t : Team) (p : GamePlayer) (o : Option ℕ) (w : World)
    → (save_one t p o w).sessions ≡ w.sessions
unfolding save_one
save_one_sessions t p none w = refl
save_one_sessions t p (some s) w = refl

save_results_sessions :
    (t : Team) (ps : List GamePlayer) (w : World) → (save_results t ps w).sessions ≡ w.sessions
unfolding save_results
save_results_sessions t [] w = refl
save_results_sessions t (p ∷ ps) w =
    save_results_sessions t ps (save_one t p p.session w) ∙ save_one_sessions t p p.session w

-- What belongs in the database for a player of the first team when the second has won.
abbrev pub outcome : Team → Team → Bytes
outcome red red = text "WIN"
outcome blue blue = text "WIN"
outcome system system = text "WIN"
outcome _ _ = text "LOSS"

abbrev result_one : Team → (ℕ → Session) → GamePlayer → Option ℕ → List Effect → List Effect
result_one t h p none rest = rest
result_one t h p (some s) rest = saved (h s).username (outcome p.team t) ∷ rest

-- The results that belong in the database when the team `t` has won, slot by slot.
abbrev pub results : Team → (ℕ → Session) → List GamePlayer → List Effect
results t h [] = []
results t h (p ∷ ps) = result_one t h p p.session (results t h ps)

-- At the end of a game every seated session is back in the lobby with no game, and no other
-- session is touched.
pub end_game_sessions :
    (winner : Team) (r : Room) (q : ℕ)
    → (end_game winner r).world.sessions q
      ≡ (if is_seated q r.game.players then sent_home (r.world.sessions q) else r.world.sessions q)
unfolding settle
end_game_sessions winner r q =
    rw (end_game-announced winner r, announced_game winner r)
      (release_players_sessions r.game.players q _
        ∙ rw (save_results_sessions winner r.game.players, announced_sessions winner r))

-- The announcement of the winner, as the chat message of the system.
abbrev pub victory_message : Team → Bytes
victory_message winner = system_message (winner_name winner ++ text "팀이 승리했습니다!")
