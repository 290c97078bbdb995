-- ===== src/Server/Rooms.antt =====
-- A room that is created has a full game, with the players in its seats.
pub mod Replaced
use mathlib.Core.List.{Perm}
use codenames_cpp_vibecoding.Prelude.{
  ℕ, suc, ◌≡◌, refl, ◌∙◌, subst, sym, ap, arith, Bool, true, false, List, [], ◌∷◌, map, Option,
  some, ◌==◌, if◌then◌else◌, All,
}
use codenames_cpp_vibecoding.Assoc
use codenames_cpp_vibecoding.Text.{Bytes, bytes_eq}
use codenames_cpp_vibecoding.Text.Fields.{bytes_eq_iff, bytes_eq_refl}
use codenames_cpp_vibecoding.Session.{World, Session, in_game, modify}
use codenames_cpp_vibecoding.Game.{Game, Room, CardType, max_players, new_game, empty_slot}
use codenames_cpp_vibecoding.Game.Roster.{add_player, get_player_count}
use codenames_cpp_vibecoding.Game.Start.{start_game, vacate}
use codenames_cpp_vibecoding.Game.Start.Opening.{
  start_game-Inv, started_game_sessions, started_game_true, started_game_players,
}
use codenames_cpp_vibecoding.Game.Invariant.{Inv}
use codenames_cpp_vibecoding.Game.Invariant.Deck.{IsDealt}
use codenames_cpp_vibecoding.Server.{
  Server, put_game, place_game, room_at, with_room, room_name, enter, seat_players,
  create_game_room,
}

-- The sessions of these players are open.
abbrev pub AllOpen : World → List ℕ → Type 0
AllOpen w = All (λ p. (w.sessions p).is_closed ≡ false)

-- A session in the room at the address `g`.
abbrev pub entered : ℕ → Session → Session
entered g s = record s {
  game_manager = some g;
  current_state = in_game;
  is_in_matching_queue = false;
}

abbrev pub is_among : ℕ → List ℕ → Bool
is_among q [] = false
is_among q (p ∷ ps) = if q == p then true else is_among q ps

abbrev entered_if : Bool → ℕ → Session → Session
entered_if b g s = if b then entered g s else s

enter_sessions :
    (g p q : ℕ) (w : World) → (enter g p w).sessions q ≡ entered_if (q == p) g (w.sessions q)
unfolding enter modify
enter_sessions g p q w = ground arith

enter-AllOpen : (g p : ℕ) (ps : List ℕ) (w : World) → AllOpen w ps → AllOpen (enter g p w) ps
enter-AllOpen g p [] w h = h
enter-AllOpen g p (q ∷ ps) w (h, hs) =
    (rw (enter_sessions g p q w) (ground arith), enter-AllOpen g p ps w hs)

-- The seats after the players were added one by one.
abbrev seated_game : List ℕ → Game → Game
seated_game [] g = g
seated_game (p ∷ ps) g = seated_game ps (add_player (some p) g).0

seat_players_game :
    (g : ℕ) (ps : List ℕ) (r : Room)
    → AllOpen r.world ps
    → (seat_players g ps r).game ≡ seated_game ps r.game
unfolding seat_players
seat_players_game g [] r h = refl
seat_players_game g (p ∷ ps) r (h, hs) =
    rw (h, seat_players) (seat_players_game g ps _ (enter-AllOpen g p ps r.world hs))

seat_players_sessions :
    (g : ℕ) (ps : List ℕ) (r : Room) (q : ℕ)
    → AllOpen r.world ps
    → (seat_players g ps r).world.sessions q ≡ entered_if (is_among q ps) g (r.world.sessions q)
unfolding seat_players
seat_players_sessions g [] r q h = refl
seat_players_sessions g (p ∷ ps) r q (h, hs) =
    rw (h, seat_players)
      (seat_players_sessions g ps _ q (enter-AllOpen g p ps r.world hs)
        ∙ rw (enter_sessions g p q r.world)
            (entered_twice (q == p) (is_among q ps) (r.world.sessions q)))
  where
    entered_twice :
        (a b : Bool) (s : Session)
        → entered_if b g (entered_if a g s) ≡ entered_if (if a then true else b) g s
    entered_twice true true s = refl
    entered_twice true false s = refl
    entered_twice false b s = refl

-- Six players in their seats.
abbrev pub six : ℕ → ℕ → ℕ → ℕ → ℕ → ℕ → List ℕ
six a b c d e f = a ∷ b ∷ c ∷ d ∷ e ∷ f ∷ []

seated_six :
    (room_id : Bytes) (a b c d e f : ℕ)
    → let g = seated_game (six a b c d e f) (new_game room_id) in
      (map vacate g.players ≡ (new_game []).players)
      × (get_player_count g ≡ max_players)
      × (map (λ p. p.session) g.players ≡ map some (six a b c d e f))
unfolding add_player new_game empty_slot vacate get_player_count
seated_six room_id a b c d e f = (refl, refl, refl)

-- The server with a new game under a free name.
abbrev with_new_game : Bytes → Server → Server
with_new_game room_id v = record v {
  active_games = Assoc.insert bytes_eq room_id v.fresh v.active_games;
  games = put_game v.games v.fresh (new_game room_id);
  fresh = suc v.fresh;
}

-- No room has the name.
abbrev pub IsFreeName : Bytes → Server → Type 0
IsFreeName room_id v = Assoc.contains bytes_eq room_id v.active_games ≡ false

place_game-with_new_game :
    (room_id : Bytes) (v : Server)
    → IsFreeName room_id v
    → place_game room_id v ≡ with_new_game room_id v
unfolding place_game
place_game-with_new_game room_id v free =
    rw (Assoc.contains-lookup bytes_eq room_id v.active_games free, place_game) refl

put_game_same : (games : ℕ → Game) (g : ℕ) (game : Game) → put_game games g game g ≡ game
unfolding put_game
put_game_same games g game = ground arith

with_room_game : (g : ℕ) (r : Room) (v : Server) → (with_room g r v).games g ≡ r.game
unfolding with_room
with_room_game g r v = put_game_same v.games g r.game

module _ (file : Option Bytes) (shuffle : List CardType → List CardType)
    (shuffles : (ts : List CardType) → Perm ts (shuffle ts)) (now a b c d e f : ℕ)
    (v : Server) where
  abbrev players : List ℕ
  players = six a b c d e f

  abbrev new_room : Room
  new_room = record { game = new_game (room_name now); world = v.hub.world }

  abbrev seated : Room
  seated = seat_players v.fresh players new_room

  abbrev opened : Room
  opened = (start_game file shuffle now seated).0

  room_at-with_new_game : room_at v.fresh (with_new_game (room_name now) v) ≡ new_room
  room_at-with_new_game =
      ap (λ (g : Game). record { game = g; world = v.hub.world })
        (put_game_same v.games v.fresh (new_game (room_name now)))

  seated-six :
      AllOpen v.hub.world players
      → (map vacate seated.game.players ≡ (new_game []).players)
        × (get_player_count seated.game ≡ max_players)
        × (map (λ p. p.session) seated.game.players ≡ map some players)
  seated-six h =
      rw (seat_players_game v.fresh players new_room h) (seated_six (room_name now) a b c d e f)

  created :
      IsFreeName (room_name now) v
      → AllOpen v.hub.world players
      → create_game_room file shuffle now players v
        ≡ with_room v.fresh opened (with_new_game (room_name now) v)
  unfolding create_game_room
  created free h =
      rw
        (
          place_game-with_new_game (room_name now) v free,
          room_at-with_new_game,
          started_game_true file shuffle shuffles now seated (seated-six h).1,
          create_game_room,
        )
        refl

  -- If the room's name is free, the six players are open and the shuffle only reorders,
  -- CreateGameRoom puts a game under the
  -- name that has the invariant and a full deal, with the players in the slots in their order. Their
  -- sessions, and no others, are in the game, refer to it and have left the queue.
  pub create_game_room_opens :
      IsFreeName (room_name now) v
      → AllOpen v.hub.world players
      → let v' = create_game_room file shuffle now players v in
        let g = v'.games v.fresh in
        (Assoc.lookup bytes_eq (room_name now) v'.active_games ≡ some v.fresh)
        × Inv g
        × IsDealt g
        × (map (λ p. p.session) g.players ≡ map some players)
        × ((q : ℕ)
            → v'.hub.world.sessions q ≡ (
                if is_among q players
                then entered v.fresh (v.hub.world.sessions q)
                else v.hub.world.sessions q))
  unfolding with_room
  create_game_room_opens free h =
      let (seats, count, order) = seated-six h in
      let (inv, dealt) = start_game-Inv file shuffle shuffles now seated seats count in
      let held = with_room_game v.fresh opened (with_new_game (room_name now) v) in
      rw (created free h) (
        rw
            (
              Assoc.lookup-insert bytes_eq bytes_eq_iff (room_name now) (room_name now) v.fresh
                  v.active_games,
              bytes_eq_refl (room_name now),
            )
            refl,
        subst Inv (sym held) inv,
        subst IsDealt (sym held) dealt,
        ap (λ (k : Game). map (λ p. p.session) k.players) held
            ∙ ap (map (λ p. p.session))
                (started_game_players file shuffle shuffles now seated count)
            ∙ order,
        λ q.
            ap (λ (k : ℕ → Session). k q)
              (started_game_sessions file shuffle shuffles now seated count)
            ∙ seat_players_sessions v.fresh players new_room q h,
      )
