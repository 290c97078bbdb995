-- ===== src/Server/Rooms/Replaced.antt =====
-- Two rooms created within one second have the same name: the second one ends the first.
use codenames_cpp_vibecoding.Prelude.{ℕ, ◌≡◌, refl, ◌≢◌, ◌∙◌, ap, arith, some, map, if◌then◌else◌}
use codenames_cpp_vibecoding.Assoc
use codenames_cpp_vibecoding.Text.{Bytes, bytes_eq}
use codenames_cpp_vibecoding.Text.Fields.{bytes_eq_iff, bytes_eq_refl}
use codenames_cpp_vibecoding.Game.{Game, Room, new_game}
use codenames_cpp_vibecoding.Game.Turns.Ending.{is_seated, sent_home}
use codenames_cpp_vibecoding.Game.Start.{destroy, vacate}
use codenames_cpp_vibecoding.Game.Start.Closing.{destroy_outcome}
use codenames_cpp_vibecoding.Server.{Server, put_game, place_game, room_at, with_room}
use codenames_cpp_vibecoding.Server.Rooms.{with_new_game, with_room_game}

put_game_other :
    (games : ℕ → Game) (g q : ℕ) (game : Game) → q ≢ g → put_game games g game q ≡ games q
unfolding put_game
put_game_other games g q game h = ground arith

room_at_other :
    (room_id : Bytes) (old : ℕ) (v : Server)
    → old ≢ v.fresh
    → room_at old (with_new_game room_id v) ≡ room_at old v
room_at_other room_id old v h =
    ap (λ (g : Game). record { game = g; world = v.hub.world })
      (put_game_other v.games v.fresh old (new_game room_id) h)

replaced :
    (room_id : Bytes) (old : ℕ) (v : Server)
    → Assoc.lookup bytes_eq room_id v.active_games ≡ some old
    → old ≢ v.fresh
    → place_game room_id v ≡ with_room old (destroy (room_at old v)) (with_new_game room_id v)
unfolding place_game
replaced room_id old v taken h =
    rw (taken, place_game)
      (ap (λ (r : Room). with_room old (destroy r) (with_new_game room_id v))
        (room_at_other room_id old v h))

-- If a room at an address other than the next free one has the name already, placing the new game destroys the old one: its seats are empty,
-- the sessions seated there are in the lobby with no game, no other session is touched, and the
-- name leads to the new game.
pub place_game_replaces :
    (room_id : Bytes) (old : ℕ) (v : Server)
    → Assoc.lookup bytes_eq room_id v.active_games ≡ some old
    → old ≢ v.fresh
    → let v' = place_game room_id v in
      (Assoc.lookup bytes_eq room_id v'.active_games ≡ some v.fresh)
      × ((v'.games old).players ≡ map vacate (v.games old).players)
      × ((q : ℕ)
          → v'.hub.world.sessions q ≡ (
              if is_seated q (v.games old).players
              then sent_home (v.hub.world.sessions q)
              else v.hub.world.sessions q))
unfolding with_room
place_game_replaces room_id old v taken h =
    let (seats, home) = destroy_outcome (room_at old v) in
    let ended = destroy (room_at old v) in
    rw (replaced room_id old v taken h) (
      rw
          (
            Assoc.lookup-insert bytes_eq bytes_eq_iff room_id room_id v.fresh v.active_games,
            bytes_eq_refl room_id,
          )
          refl,
      ap (λ (g : Game). g.players) (with_room_game old ended (with_new_game room_id v)) ∙ seats,
      home,
    )
