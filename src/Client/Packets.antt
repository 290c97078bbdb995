-- ===== src/Client/Packets.antt =====
-- CodeNamesClient/src/core/PacketHandler.cpp: the handlers of the server's packets. Where `std::stoi`
-- throws, ProcessPacket catches, and what the handler did until then stays. The tags are those of
-- Protocol, and three more of CodeNamesClient/include/core/PacketProtocol.h.
pub mod Dispatch
pub mod Effects
pub mod Messages
pub mod Updates
pub mod Glued
pub mod Cards
pub mod Seats
pub mod Myself
use codenames_cpp_vibecoding.Prelude.{
  ℕ, zero, suc, ◌+◌, ◌*◌, ◌%◌, ◌==◌, Bool, true, false, ◌&&◌, ◌||◌, not, List, [], ◌∷◌, ◌++◌,
  Option, none, some, if◌then◌else◌, ℤ, pos, negsuc, length, get_elem?, ltb,
}
use codenames_cpp_vibecoding.Text.{Bytes, text, is_empty, bytes_eq, stoi}
use codenames_cpp_vibecoding.Client.{
  ClientPhase, lobby, matching, playing, error_phase, ClientRole, client_agent, client_spymaster,
  Player, ClientCard, GameMessage, GameState, Client, Notice, minus_one, eq_ℤ, with_state,
  show_status, set_phase, update_players, update_cards, update_score, add_message, reveal_card,
  set_hint, set_turn, on_game_over,
}
use codenames_cpp_vibecoding.Client.Fields.{parse_field}

-- `x % 2 == 0` of an `int`, and `x < 2`.
abbrev pub is_even : ℤ → Bool
is_even (pos n) = n % 2 == 0
is_even (negsuc n) = suc n % 2 == 0

abbrev pub below_two : ℤ → Bool
below_two (pos n) = ltb n 2
below_two (negsuc n) = true

-- One player of GAME_INIT; `none` where a number cannot be read.
unfoldable pub read_player : Bytes → Bytes → Bytes → Bytes → Option Player
read_player nick role team leader = elim (stoi role) [
  | none ↦ none
  | some r ↦ elim (stoi team) [
    | none ↦ none
    | some t ↦ elim (stoi leader) [
      | none ↦ none
      | some l ↦ some (record {
        nickname = nick;
        role = if is_even r then client_spymaster else client_agent;
        is_ready = false;
        team = t;
        is_leader = eq_ℤ l (pos 1);
      })
    ]
  ]
]

-- The loop of HandleGameInit over the slots from `i` on, `n` of them: the players read and the index
-- at which the nickname was found last. `none` is the exception.
unfoldable pub read_players : Bytes → Bytes → ℕ → ℕ → List Player → ℤ → Option (List Player × ℤ)
unfolding read_player
read_players whole mine zero i players index = some (players, index)
read_players whole mine (suc n) i players index =
    let nick = parse_field whole (i * 4) in
    let skipped = read_players whole mine n (suc i) players index in
    if is_empty nick
    then skipped
    else elim (read_player nick (parse_field whole (i * 4 + 1)) (parse_field whole (i * 4 + 2))
        (parse_field whole (i * 4 + 3))) [
          | none ↦ none
          | some p ↦
              read_players whole mine n (suc i) (players ++ p ∷ [])
                (if bytes_eq nick mine then pos i else index)
        ]

-- The player at an index that may be -1 or too large.
abbrev nth_player : List Player → ℤ → Option Player
nth_player ps (negsuc i) = none
nth_player ps (pos i) = get_elem? ps i

-- The part of HandleGameInit that sets the client's own index, team and leadership.
unfoldable pub find_myself : List Player → ℤ → GameState → GameState
find_myself players index s = elim (nth_player players index) [
  | none ↦ s
  | some p ↦ record s { my_player_index = index; my_team = p.team; is_my_leader = p.is_leader }
]

-- One card of ALL_CARDS.
unfoldable pub read_card : Bytes → Bytes → Bytes → Option ClientCard
read_card word type used = elim (stoi type) [
  | none ↦ none
  | some t ↦ elim (stoi used) [
    | none ↦ none
    | some u ↦ some (record { word = word; is_revealed = eq_ℤ u (pos 1); card_type = t })
  ]
]

-- The loop of HandleAllCards over the cards from `i` on, `n` of them.
unfoldable pub read_cards : Bytes → ℕ → ℕ → List ClientCard → Option (List ClientCard)
unfolding read_card
read_cards whole zero i cards = some cards
read_cards whole (suc n) i cards =
    let word = parse_field whole (i * 3) in
    let skipped = read_cards whole n (suc i) cards in
    if is_empty word
    then skipped
    else elim (read_card word (parse_field whole (i * 3 + 1)) (parse_field whole (i * 3 + 2))) [
      | none ↦ none
      | some c ↦ read_cards whole n (suc i) (cards ++ c ∷ [])
    ]

-- The name of the winning team on the wire.
unfoldable pub client_winner_name : ℤ → Bytes
client_winner_name w =
    if eq_ℤ w (pos 0) then text "RED" else if eq_ℤ w (pos 1) then text "BLUE" else text "DRAW"

-- The message of HandleGameOver.
unfoldable pub winner_note : ℤ → GameMessage
unfolding client_winner_name
winner_note w = record {
  nickname = text "SYSTEM";
  message = client_winner_name w ++ text " 팀이 승리했습니다! (ESC: 로비로)";
  team = pos 2;
}

module _ {O : Type 0} (on : Notice → GameState → O → O) where
  -- HandleSignupOk and HandleLoginOk, which are the same.
  unfoldable pub handle_login_ok : Bytes → Client O → Client O
  handle_login_ok d c =
      let t = parse_field d 0 in
      if is_empty t then c else set_phase on lobby (with_state c (record (c.state) { token = t }))

  unfoldable pub handle_invalid_token : Client O → Client O
  handle_invalid_token c = set_phase on error_phase c

  unfoldable pub handle_user_profile : Bytes → Client O → Client O
  handle_user_profile d c =
      let nickname = parse_field d 0 in
      if is_empty nickname then c else with_state c (record (c.state) { username = nickname })

  -- The rest of HandleWaitReply, once the count is read.
  unfoldable pub wait_for : ℤ → Bytes → Client O → Client O
  wait_for count max c =
      let counted = with_state c (record (c.state) { matching_count = count }) in
      if is_empty max then set_phase on matching counted else elim (stoi max) [
        | none ↦ counted
        | some m ↦
            set_phase on matching (with_state counted (record (counted.state) { matching_max = m }))
      ]

  unfoldable pub handle_wait_reply : Bytes → Client O → Client O
  unfolding wait_for
  handle_wait_reply d c = if is_empty (parse_field d 0) then c else elim (stoi (parse_field d 0)) [
    | none ↦ c
    | some count ↦ wait_for count (parse_field d 1) c
  ]

  unfoldable pub handle_queue_full : Client O → Client O
  handle_queue_full c = set_phase on matching c

  unfoldable pub handle_game_init : Bytes → Client O → Client O
  unfolding find_myself
  handle_game_init d c = elim (read_players d c.state.username 6 0 [] minus_one) [
    | none ↦ c
    | some (players, index) ↦
        update_players on players (with_state c (find_myself players index c.state))
  ]

  unfoldable pub handle_game_start : Bytes → Client O → Client O
  handle_game_start d c = if is_empty (parse_field d 0) then c else elim (stoi (parse_field d 0)) [
    | none ↦ c
    | some n ↦ set_phase on playing (with_state c (record (c.state) { session_id = n }))
  ]

  unfoldable pub handle_all_cards : Bytes → Client O → Client O
  handle_all_cards d c = elim (read_cards d 25 0 []) [
    | none ↦ c
    | some cards ↦ update_cards on cards c
  ]

  -- The role also stands in for GAME_INIT, if that did not find the client's own index.
  unfoldable pub handle_role_info : Bytes → Client O → Client O
  handle_role_info d c = if is_empty (parse_field d 0) then c else elim (stoi (parse_field d 0)) [
    | none ↦ c
    | some role ↦ with_state c (
        if eq_ℤ c.state.my_player_index minus_one
        then record (c.state) {
          my_role = role;
          is_my_leader = eq_ℤ role (pos 0) || eq_ℤ role (pos 2);
          my_team = if below_two role then pos 0 else pos 1;
        }
        else record (c.state) { my_role = role })
  ]

  -- The scores of TURN_UPDATE, read after the turn is set.
  unfoldable pub score_update : Bytes → Bytes → Client O → Client O
  score_update red blue c = elim (stoi red) [
    | none ↦ c
    | some r ↦ elim (stoi blue) [ none ↦ c | some b ↦ update_score on r b c ]
  ]

  unfoldable pub handle_turn_update : Bytes → Client O → Client O
  unfolding score_update
  handle_turn_update d c =
      let team = parse_field d 0 in
      let red = parse_field d 2 in
      let blue = parse_field d 3 in
      if not (is_empty team) && (not (is_empty red) && not (is_empty blue))
      then elim (stoi (parse_field d 1)) [
        | none ↦ c
        | some phase ↦
            let stepped = with_state c (record (c.state) { in_game_step = phase }) in
            elim (stoi team) [
              | none ↦ stepped
              | some t ↦ score_update red blue (set_turn on t stepped)
            ]
      ]
      else c

  unfoldable pub hint_given : Bytes → ℤ → Client O → Client O
  hint_given word n c =
      let told = set_hint on word n c in
      with_state told (record (told.state) { remaining_tries = n })

  unfoldable pub handle_hint_msg : Bytes → Client O → Client O
  unfolding hint_given
  handle_hint_msg d c =
      let word = parse_field d 1 in
      let count = parse_field d 2 in
      if not (is_empty word) && not (is_empty count)
      then elim (stoi count) [ none ↦ c | some n ↦ hint_given word n c ]
      else c

  -- The third field of CARD_UPDATE, read after the card is revealed.
  unfoldable pub tries_update : Bytes → Client O → Client O
  tries_update tries c = if is_empty tries then c else elim (stoi tries) [
    | none ↦ c
    | some n ↦ with_state c (record (c.state) { remaining_tries = n })
  ]

  -- The second field must be readable if it is there; its value is not used.
  unfoldable pub handle_card_update : Bytes → Client O → Client O
  unfolding tries_update
  handle_card_update d c = if is_empty (parse_field d 0) then c else elim (stoi (parse_field d 0)) [
    | none ↦ c
    | some index ↦
        let shown = tries_update (parse_field d 2) (reveal_card on index c) in
        if is_empty (parse_field d 1)
        then shown
        else elim (stoi (parse_field d 1)) [ none ↦ c | some used ↦ shown ]
  ]

  unfoldable pub handle_chat_msg : Bytes → Client O → Client O
  handle_chat_msg d c =
      let nickname = parse_field d 2 in
      let message = parse_field d 3 in
      if not (is_empty nickname) && not (is_empty message)
      then (if is_empty (parse_field d 0)
          then add_message on (record { nickname = nickname; message = message; team = pos 999 }) c
          else elim (stoi (parse_field d 0)) [
            | none ↦ c
            | some t ↦
                add_message on (record { nickname = nickname; message = message; team = t }) c
          ])
      else c

  unfoldable pub handle_game_over : Bytes → Client O → Client O
  unfolding winner_note
  handle_game_over d c = if is_empty (parse_field d 0) then c else elim (stoi (parse_field d 0)) [
    | none ↦ c
    | some winner ↦ on_game_over on (add_message on (winner_note winner) c)
  ]

  unfoldable pub handle_error : Client O → Client O
  handle_error c = show_status (text "Server error") (set_phase on error_phase c)

  unfoldable pub handle_login_failure : Bytes → Client O → Client O
  handle_login_failure reason c = show_status (text "Login failed: " ++ reason) c
