-- ===== src/Client/Mirror/Turns.antt =====
-- SwitchTurn, SwitchPhase, EndGame and ProcessHint of the server keep the client up to date.
use codenames_cpp_vibecoding.Prelude.{
  ℕ, ◌≤◌, ◌≡◌, refl, ◌∙◌, sym, subst, ap, true, List, [], ◌∷◌, ◌++◌, Option, none, some, ℤ,
  Bool-cases, inl, inr,
}
use codenames_cpp_vibecoding.Text.{Bytes, max_int, text}
use codenames_cpp_vibecoding.Session.{World, Effect}
use codenames_cpp_vibecoding.Game.{Game, Room, Team, GamePlayer, with_game}
use codenames_cpp_vibecoding.Game.Broadcast.{
  broadcast_to_all, broadcast_game_system_message, system_message, turn_update_message,
}
use codenames_cpp_vibecoding.Game.Broadcast.Delivery.{broadcast_game}
use codenames_cpp_vibecoding.Game.Turns.{
  turned, phased, switch_turn, switch_phase, end_game, settle, save_one, save_results,
  game_over_message, winner_name,
}
use codenames_cpp_vibecoding.Game.Turns.Ending.{
  switch_turn_game, switch_phase_game, end_game_game, release_players_log, announced,
  end_game-announced,
}
use codenames_cpp_vibecoding.Game.Play.{
  process_hint, hinted, hint_message, is_valid_player_for_hint,
}
use codenames_cpp_vibecoding.Client.{GameState, Client, Notice}
use codenames_cpp_vibecoding.Client.Mirror.{Mirrors, Listens, replay, view, Synced}
use codenames_cpp_vibecoding.Client.Mirror.Replay.{
  replay-append, broadcast_keeps, broadcast_reaches, broadcast-Listens,
}
use codenames_cpp_vibecoding.Client.Mirror.Messages.{
  chat-Hears, hint-Hears, turn_update-Hears, game_over-Hears,
}
use codenames_cpp_vibecoding.Client.Mirror.Sizes.{turn_update-Fits, game_over-Fits}

module _ {O : Type 0} (on : Notice → GameState → O → O) (me : ℕ) (c : Client O) where
  -- A new turn or phase of the same board is announced.
  announce :
      (next : Game) (r : Room)
      → next.cards ≡ r.game.cards
      → next.game_over ≡ r.game.game_over
      → next.players ≡ r.game.players
      → next.red_score ≤ max_int
      → next.blue_score ≤ max_int
      → Listens me r
      → Synced on me c r
      → Mirrors next
          (view on me c (broadcast_to_all (turn_update_message next) (with_game r next)).world)
  announce next r cards over players hr hb l h =
      broadcast_reaches on me (Mirrors r.game) (Mirrors next) (turn_update_message next)
        (turn_update-Hears on r.game next cards over hr hb)
        (turn_update-Hears on next next refl refl hr hb) c (with_game r next)
        (turn_update-Fits next hr hb) (rw players l) h

  pub switch_turn-Synced :
      (r : Room)
      → r.game.red_score ≤ max_int
      → r.game.blue_score ≤ max_int
      → Listens me r
      → Synced on me c r
      → Synced on me c (switch_turn r)
  unfolding switch_turn turned
  switch_turn-Synced r hr hb l h =
      rw (switch_turn_game r) (announce (turned r.game) r refl refl refl hr hb l h)

  pub switch_phase-Synced :
      (r : Room)
      → r.game.red_score ≤ max_int
      → r.game.blue_score ≤ max_int
      → Listens me r
      → Synced on me c r
      → Synced on me c (switch_phase r)
  unfolding switch_phase phased
  switch_phase-Synced r hr hb l h =
      rw (switch_phase_game r) (announce (phased r.game) r refl refl refl hr hb l h)

  pub process_hint-Synced :
      (i : ℤ) (word : Bytes) (n : ℤ) (r : Room)
      → r.game.red_score ≤ max_int
      → r.game.blue_score ≤ max_int
      → Listens me r
      → Synced on me c r
      → Synced on me c (process_hint i word n r).0
  unfolding process_hint hinted hint_message
  process_hint-Synced i word n r hr hb l h =
      elim (Bool-cases (is_valid_player_for_hint i r.game r.world)) [
        | inr e ↦ rw (e, process_hint) h
        | inl e ↦
            let q = with_game r (hinted word n r.game) in
            let m = hint_message r.game word n in
            let told =
              broadcast_keeps on me (Mirrors q.game) m (hint-Hears on q.game _ _) c q
                (record { cards = h.cards; turn = h.turn; step = h.step; over = h.over }) in
            rw (e, process_hint)
              (switch_phase-Synced (broadcast_to_all m q) (rw (broadcast_game m q) hr)
                (rw (broadcast_game m q) hb) (broadcast-Listens me m q l)
                (rw (broadcast_game m q) told))
      ]

  view-save_results :
      (winner : Team) (ps : List GamePlayer) (w : World)
      → view on me c (save_results winner ps w) ≡ view on me c w
  unfolding save_results save_one replay
  view-save_results winner [] w = refl
  view-save_results winner (p ∷ ps) w =
      view-save_results winner ps (save_one winner p p.session w) ∙ one p.session
    where
      one : (o : Option ℕ) → view on me c (save_one winner p o w) ≡ view on me c w
      one none = refl
      one (some s) = ap (λ (d : Client O). d.state) (replay-append on me w.log _ c)

  -- The results and the way back to the lobby send nothing.
  view-settle :
      (winner : Team) (r : Room) → view on me c (settle winner r).world ≡ view on me c r.world
  unfolding settle
  view-settle winner r =
      ap (λ (es : List Effect). (replay on me es c).state)
        (release_players_log r.game.players (save_results winner r.game.players r.world))
      ∙ view-save_results winner r.game.players r.world

  pub end_game-Synced :
      (winner : Team) (r : Room)
      → Listens me r
      → Synced on me c r
      → Synced on me c (end_game winner r)
  unfolding announced broadcast_game_system_message system_message
  end_game-Synced winner r l h =
      let over : Game = record (r.game) { game_over = true } in
      let q = with_game r over in
      let m = system_message (winner_name winner ++ text "팀이 승리했습니다!") in
      let told = broadcast_keeps on me (Mirrors r.game) m (chat-Hears on r.game _ _) c q h in
      let same =
        ap (λ (e : Room). view on me c e.world) (end_game-announced winner r)
        ∙ view-settle winner (announced winner r) in
      rw (end_game_game winner r) (
        subst (Mirrors over) (sym same) (
          broadcast_reaches on me (Mirrors r.game) (Mirrors over) (game_over_message winner)
            (game_over-Hears on r.game winner) (game_over-Hears on over winner) c
            (broadcast_to_all m q) (game_over-Fits winner) (broadcast-Listens me m q l) told))
