-- ===== src/Tests/Games.antt =====
-- The theorems on the game at a room of six.
use codenames_cpp_vibecoding.Prelude.{
  ℕ, ◌≤◌, ◌≡◌, refl, ◌↔◌, ◌⊎◌, arith, true, false, [], map, none, some, length, pos, ◌∷◌,
  if◌then◌else◌,
}
use codenames_cpp_vibecoding.Assoc
use codenames_cpp_vibecoding.Text.{text, is_empty, pipe, bytes_eq}
use codenames_cpp_vibecoding.Text.Fields.{Lacks, bytes_eq_refl}
use codenames_cpp_vibecoding.Server.{Server, place_game, create_game_room, room_name}
use codenames_cpp_vibecoding.Server.Rooms.{
  create_game_room_opens, six, is_among, entered, IsFreeName,
}
use codenames_cpp_vibecoding.Session.Sending.{Fits}
use codenames_cpp_vibecoding.Game.{
  Game, red_card, blue_card, assassin, red, spymaster, guess_phase, max_cards, red_cards,
  blue_cards, new_game,
}
use codenames_cpp_vibecoding.Game.Board.{load_word_list, assign_cards}
use codenames_cpp_vibecoding.Game.Board.Words.{load_word_list_full}
use codenames_cpp_vibecoding.Game.Board.Deal.{assign_cards-IsDealt}
use codenames_cpp_vibecoding.Game.Turns.Ending.{sent_home, is_seated}
use codenames_cpp_vibecoding.Game.Play.{is_valid_player_for_hint, process_hint, handle_game_packet}
use codenames_cpp_vibecoding.Game.Play.Guards.{MayHint, is_valid_player_for_hint_iff}
use codenames_cpp_vibecoding.Game.Play.Packets.{Move, handle_game_packet-Move}
use codenames_cpp_vibecoding.Game.Start.Closing.{destroy_outcome}
use codenames_cpp_vibecoding.Server.Rooms.Replaced.{place_game_replaces}
use codenames_cpp_vibecoding.Game.Start.{destroy, start_game, vacate}
use codenames_cpp_vibecoding.Game.Start.Opening.{started_game_outcome}
use codenames_cpp_vibecoding.Game.Invariant.{Inv, face_up}
use codenames_cpp_vibecoding.Game.Invariant.Histories.{play}
use codenames_cpp_vibecoding.Game.Invariant.Frozen.{play_over, hint_nonpos_freezes}
use codenames_cpp_vibecoding.Game.Invariant.Length.{Course, play_at_most_51-Course}
use codenames_cpp_vibecoding.Game.Invariant.Deck.{IsDealt, SameDeck, play-SameDeck}
use codenames_cpp_vibecoding.Tests.Fixtures.{
  demo_seats, unshuffled, unshuffled-Perm, demo_count, demo_server, demo_room, demo_world,
  demo_game, demo_players, demo_session, demo_packets,
}

demo_Inv : Inv demo_game
unfolding new_game vacate
demo_Inv = record {
  seats = demo_seats;
  board = refl;
  red_counted = refl;
  blue_counted = refl;
  playable = refl;
  idle = λ e. refl;
  decided = refl;
}

demo_board : length demo_game.cards ≡ max_cards
unfolding new_game
demo_board = refl

demo_MayHint : MayHint (pos 0) demo_game demo_world
unfolding new_game
demo_MayHint = record {
  player = record { role_num = 0; team = red; role = spymaster; session = some 0 };
  session = 0;
  seated = (0, refl, omega arith, refl, refl);
  running = refl;
  connected = refl;
  to_move = refl;
  phase = refl;
  leads = refl;
}

started_game_outcome_example :
    let h = play demo_packets (start_game none unshuffled 7 demo_room).0.game in
    (h.red_score ≡ face_up red_card h.cards)
    × (h.blue_score ≡ face_up blue_card h.cards)
    × (h.red_score ≤ red_cards)
    × (h.blue_score ≤ blue_cards)
    × ((h.game_over ≡ true) ↔ (
        (h.red_score ≡ red_cards) ⊎ (h.blue_score ≡ blue_cards) ⊎ (face_up assassin h.cards ≡ 1)))
started_game_outcome_example =
    started_game_outcome none unshuffled unshuffled-Perm 7 demo_room demo_packets demo_seats
      demo_count

handle_game_packet-Move_example :
    Move demo_game (handle_game_packet (some 0) (text "HINT_MSG|animal|2") demo_room).game
handle_game_packet-Move_example =
    handle_game_packet-Move (some 0) (text "HINT_MSG|animal|2") demo_room

play_at_most_51-Course_example : (k : ℕ) × Course k demo_packets demo_game × (k ≤ 51)
play_at_most_51-Course_example = play_at_most_51-Course demo_packets demo_game demo_board

play-SameDeck_example : SameDeck demo_game.cards (play demo_packets demo_game).cards
play-SameDeck_example = play-SameDeck demo_packets demo_game

abbrev over_game : Game
over_game = record demo_game { game_over = true }

play_over_example : play demo_packets over_game ≡ over_game
play_over_example = play_over over_game demo_packets refl

hint_nonpos_freezes_example :
    let h = (process_hint (pos 0) (text "animal") (pos 0) demo_room).0.game in
    (play demo_packets h ≡ h) × (h.game_over ≡ false) × (h.current_phase ≡ guess_phase)
hint_nonpos_freezes_example =
    hint_nonpos_freezes (pos 0) (text "animal") (pos 0) demo_room demo_packets demo_MayHint refl

chat_line-Fits : Fits (text "hello")
unfolding text is_empty
chat_line-Fits = (refl, omega arith)

is_valid_player_for_hint_iff_example :
    (is_valid_player_for_hint (pos 0) demo_game demo_world ≡ true)
    ↔ MayHint (pos 0) demo_game demo_world
is_valid_player_for_hint_iff_example = is_valid_player_for_hint_iff (pos 0) demo_game demo_world

assign_cards-IsDealt_example : IsDealt (assign_cards unshuffled (load_word_list none demo_game).0)
assign_cards-IsDealt_example =
    assign_cards-IsDealt unshuffled unshuffled-Perm (load_word_list none demo_game).0
      (load_word_list_full none demo_game).0

demo_free : IsFreeName (room_name 7) demo_server
unfolding Assoc.contains
demo_free = refl

sea-Lacks : Lacks pipe (text "sea")
unfolding text
sea-Lacks =
    ((λ e. absurd (omega arith)), ((λ e. absurd (omega arith)), ((λ e. absurd (omega arith)), tt)))

create_game_room_opens_example :
    let v' = create_game_room none unshuffled 7 (six 5 4 3 2 1 0) demo_server in
    let g = v'.games 0 in
    (Assoc.lookup bytes_eq (room_name 7) v'.active_games ≡ some 0)
    × Inv g
    × IsDealt g
    × (map (λ p. p.session) g.players ≡ map some (six 5 4 3 2 1 0))
    × ((q : ℕ)
        → v'.hub.world.sessions q
          ≡ (if is_among q (six 5 4 3 2 1 0) then entered 0 (demo_session q) else demo_session q))
create_game_room_opens_example =
    create_game_room_opens none unshuffled unshuffled-Perm 7 5 4 3 2 1 0 demo_server demo_free
      (refl, (refl, (refl, (refl, (refl, (refl, tt))))))

destroy_outcome_example :
    ((destroy demo_room).game.players ≡ map vacate demo_players)
    × ((q : ℕ)
        → (destroy demo_room).world.sessions q
          ≡ (if is_seated q demo_players then sent_home (demo_session q) else demo_session q))
destroy_outcome_example = destroy_outcome demo_room

-- The same server with a room that was created in second 7.
abbrev busy_server : Server
busy_server = record demo_server { active_games = (room_name 7, 0) ∷ []; fresh = 1 }

busy_taken : Assoc.lookup bytes_eq (room_name 7) busy_server.active_games ≡ some 0
unfolding Assoc.lookup
busy_taken = rw (bytes_eq_refl (room_name 7), Assoc.lookup) refl

place_game_replaces_example :
    let v' = place_game (room_name 7) busy_server in
    (Assoc.lookup bytes_eq (room_name 7) v'.active_games ≡ some 1)
    × ((v'.games 0).players ≡ map vacate demo_players)
    × ((q : ℕ)
        → v'.hub.world.sessions q
          ≡ (if is_seated q demo_players then sent_home (demo_session q) else demo_session q))
place_game_replaces_example =
    place_game_replaces (room_name 7) 0 busy_server busy_taken (omega arith)
