-- ===== src/Game/Start/Closing.antt =====
-- What the destructor of a game does: every seated session goes home, and the seats are free.
use codenames_cpp_vibecoding.Prelude.{
  ℕ, ◌≡◌, refl, ◌∙◌, ap, map, if◌then◌else◌, Bool, true, false, [], ◌∷◌,
}
use codenames_cpp_vibecoding.Text.{text}
use codenames_cpp_vibecoding.Protocol.{packet, pkt_game_over}
use codenames_cpp_vibecoding.Game.{Game, Room}
use codenames_cpp_vibecoding.Game.Broadcast.{broadcast_to_all, broadcast_game_system_message}
use codenames_cpp_vibecoding.Game.Broadcast.Delivery.{
  broadcast_game, broadcast_sessions, broadcast_game_system_message_game,
  broadcast_game_system_message_sessions,
}
use codenames_cpp_vibecoding.Game.Turns.{release_players}
use codenames_cpp_vibecoding.Game.Turns.Ending.{is_seated, sent_home, release_players_sessions}
use codenames_cpp_vibecoding.Game.Start.{destroy, vacate}

abbrev notice : Room → Room
notice r =
    broadcast_to_all (packet pkt_game_over (text "-1" ∷ []))
      (broadcast_game_system_message (text "예기치 못하게 게임이 종료되었습니다. (서버 종료)") r)

notice_game : (r : Room) → (notice r).game ≡ r.game
notice_game r = broadcast_game _ _ ∙ broadcast_game_system_message_game _ r

notice_sessions : (r : Room) → (notice r).world.sessions ≡ r.world.sessions
notice_sessions r = broadcast_sessions _ _ ∙ broadcast_game_system_message_sessions _ r

told : Bool → Room → Room
told over r = if over then r else notice r

told_game : (over : Bool) (r : Room) → (told over r).game ≡ r.game
unfolding told
told_game true r = refl
told_game false r = notice_game r

told_sessions : (over : Bool) (r : Room) → (told over r).world.sessions ≡ r.world.sessions
unfolding told
told_sessions true r = refl
told_sessions false r = notice_sessions r

released : Room → Room
released r = record r {
  game = record (r.game) { players = map vacate r.game.players };
  world = release_players r.game.players r.world;
}

destroy-released : (r : Room) → destroy r ≡ released (told r.game.game_over r)
unfolding destroy released told
destroy-released r = refl

-- A game whose destructor runs leaves its seats empty, every seated session back in the lobby with
-- no game, and no other session touched, whether the game was over or not.
pub destroy_outcome :
    (r : Room)
    → ((destroy r).game.players ≡ map vacate r.game.players)
      × ((q : ℕ)
          → (destroy r).world.sessions q ≡ (
              if is_seated q r.game.players
              then sent_home (r.world.sessions q)
              else r.world.sessions q))
unfolding released
destroy_outcome r =
    let over = r.game.game_over in
    (
      ap (λ (k : Room). k.game.players) (destroy-released r)
          ∙ ap (λ (g : Game). map vacate g.players) (told_game over r),
      λ q.
          ap (λ (k : Room). k.world.sessions q) (destroy-released r)
          ∙ release_players_sessions (told over r).game.players q (told over r).world
          ∙ rw (told_game over r, told_sessions over r) refl,
    )
