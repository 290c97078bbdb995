-- ===== src/Client/Packets/Seats.antt =====
-- GAME_INIT: the slots of the server as the client reads them.
use codenames_cpp_vibecoding.Prelude.{
  ℕ, suc, ◌+◌, ◌*◌, ◌%◌, ◌==◌, ◌≤◌, ◌≡◌, refl, ◌∙◌, sym, subst, ap, arith, Bool, true, false, List,
  [], ◌∷◌, ◌++◌, none, some, if◌then◌else◌, ltb, ◌||◌, ℤ, pos, get_elem?, All, length, Option-cases,
  inl, inr,
}
use mathlib.Core.List.{append-nil, append_assoc}
use codenames_cpp_vibecoding.Text.{
  Bytes, text, pipe, is_empty, bytes_eq, to_string_ℕ, digits, max_int,
}
use codenames_cpp_vibecoding.Text.Fields.{Lacks}
use codenames_cpp_vibecoding.Text.Numbers.{Number, to_string_ℕ-Number}
use codenames_cpp_vibecoding.Protocol.{packet, fields, pkt_game_init, pkt_empty}
use codenames_cpp_vibecoding.Session.{World}
use codenames_cpp_vibecoding.Game.{Game, GamePlayer, is_spymaster, team_num}
use codenames_cpp_vibecoding.Game.Broadcast.{
  create_game_init_message, init_entries, init_entry, flag,
}
use codenames_cpp_vibecoding.Client.{
  client_agent, client_spymaster, Player, GameState, Client, Notice, minus_one, eq_ℤ,
}
use codenames_cpp_vibecoding.Client.Fields.{parse_field}
use codenames_cpp_vibecoding.Client.Fields.Reading.{join, AllLack, parse_field_at}
use codenames_cpp_vibecoding.Client.Packets.{
  read_player, read_players, handle_game_init, find_myself,
}
use codenames_cpp_vibecoding.Client.Packets.Dispatch.{process_packet}
use codenames_cpp_vibecoding.Client.Packets.Effects.{update_players_state}
use codenames_cpp_vibecoding.Client.Packets.Messages.{process_packet-game_init}
use codenames_cpp_vibecoding.Client.Packets.Updates.{flag-Number}
use codenames_cpp_vibecoding.Client.Packets.Cards.{fields-append}

-- What GAME_INIT says of a slot: the name, the number, the team's number and the leadership.
pub record Seat : Type 0 where
  pub name : Bytes
  pub number : ℕ
  pub team : ℕ
  pub leads : Bool

unfoldable pub seat_of : World → ℕ → GamePlayer → Seat
seat_of w i p = elim p.session [
  | none ↦ record {
    name = pkt_empty;
    number = i;
    team = if ltb i 3 then 0 else 1;
    leads = i == 0 || i == 3;
  }
  | some s ↦ record {
    name = (w.sessions s).username;
    number = p.role_num;
    team = team_num p.team;
    leads = is_spymaster p.role;
  }
]

unfoldable pub seats : World → ℕ → List GamePlayer → List Seat
seats w i [] = []
seats w i (p ∷ ps) = seat_of w i p ∷ seats w (suc i) ps

-- A seat as the client keeps it: the role is the parity of the number.
unfoldable pub seen : Seat → Player
seen s = record {
  nickname = s.name;
  role = if s.number % 2 == 0 then client_spymaster else client_agent;
  is_ready = false;
  team = pos s.team;
  is_leader = s.leads;
}

abbrev pub seen_all : List Seat → List Player
seen_all [] = []
seen_all (s ∷ ss) = seen s ∷ seen_all ss

-- The last place at which a name stands, counted from `i` on, or `index`.
unfoldable pub place_of : Bytes → ℕ → ℤ → List Seat → ℤ
place_of mine i index [] = index
place_of mine i index (s ∷ ss) =
    place_of mine (suc i) (if bytes_eq s.name mine then pos i else index) ss

-- The seat can be sent.
pub record IsClean (s : Seat) : Type 0 where
  pub named : is_empty s.name ≡ false
  pub plain : Lacks pipe s.name
  pub numbered : s.number ≤ max_int
  pub teamed : s.team ≤ 2

abbrev four : Seat → List Bytes
four s = s.name ∷ to_string_ℕ s.number ∷ to_string_ℕ s.team ∷ to_string_ℕ (flag s.leads) ∷ []

abbrev flat : List Seat → List Bytes
flat [] = []
flat (s ∷ ss) =
    s.name ∷ to_string_ℕ s.number ∷ to_string_ℕ s.team ∷ to_string_ℕ (flag s.leads) ∷ flat ss

text_of_flag : (b : Bool) → (if b then text "1" else text "0") ≡ to_string_ℕ (flag b)
unfolding text to_string_ℕ digits flag
text_of_flag true = refl
text_of_flag false = refl

number_of_flag : (b : Bool) → to_string_ℕ (if b then 1 else 0) ≡ to_string_ℕ (flag b)
unfolding flag
number_of_flag true = refl
number_of_flag false = refl

init_entry-four :
    (w : World) (i : ℕ) (p : GamePlayer) → init_entry w i p ≡ fields (four (seat_of w i p))
unfolding init_entry seat_of
init_entry-four w i p = elim (Option-cases p.session) [
  | inl e ↦
      rw (e, init_entry, seat_of)
        (ap
          (λ t.
            fields (pkt_empty ∷ to_string_ℕ i ∷ to_string_ℕ (if ltb i 3 then 0 else 1) ∷ t ∷ []))
          (number_of_flag (i == 0 || i == 3)))
  | inr (s, e) ↦
      rw (e, init_entry, seat_of)
        (ap
          (λ t. fields (
            (w.sessions s).username
            ∷ to_string_ℕ p.role_num
            ∷ to_string_ℕ (team_num p.team)
            ∷ t
            ∷ []))
          (text_of_flag (is_spymaster p.role)))
]

init_entries-flat :
    (w : World) (i : ℕ) (ps : List GamePlayer) → init_entries w i ps ≡ fields (flat (seats w i ps))
unfolding init_entries seats fields
init_entries-flat w i [] = refl
init_entries-flat w i (p ∷ ps) =
    ap (λ s. s ++ init_entries w (suc i) ps) (init_entry-four w i p)
    ∙ ap (λ s. fields (four (seat_of w i p)) ++ s) (init_entries-flat w (suc i) ps)
    ∙ sym (fields-append (four (seat_of w i p)) (flat (seats w (suc i) ps)))

small : {s : Seat} → IsClean s → s.team ≤ max_int
small c = omega (arith, c.teamed)

eq_ℤ-flag : (b : Bool) → eq_ℤ (pos (flag b)) (pos 1) ≡ b
unfolding flag
eq_ℤ-flag true = refl
eq_ℤ-flag false = refl

flat-AllLack : (ss : List Seat) → All IsClean ss → AllLack (flat ss)
flat-AllLack [] a = tt
flat-AllLack (s ∷ ss) a = (
  a.0.plain,
  (
    (to_string_ℕ-Number s.number a.0.numbered).clean,
    (
      (to_string_ℕ-Number s.team (small a.0)).clean,
      ((flag-Number s.leads).clean, flat-AllLack ss a.1),
    ),
  ),
)

read_players_next :
    (whole mine : Bytes) (n i : ℕ) (players : List Player) (index : ℤ) (s : Seat)
    → parse_field whole (i * 4) ≡ s.name
    → Number (parse_field whole (i * 4 + 1)) (pos s.number)
    → Number (parse_field whole (i * 4 + 2)) (pos s.team)
    → Number (parse_field whole (i * 4 + 3)) (pos (flag s.leads))
    → is_empty s.name ≡ false
    → read_players whole mine (suc n) i players index
      ≡ read_players whole mine n
          (suc i)
          (players ++ seen s ∷ [])
          (if bytes_eq s.name mine then pos i else index)
unfolding read_players read_player seen
read_players_next whole mine n i players index s name number team leader full =
    let nonempty : is_empty (parse_field whole (i * 4)) ≡ false = ap is_empty name ∙ full in
    rw
      (
        nonempty,
        number.reads,
        team.reads,
        leader.reads,
        read_players,
        read_player,
        eq_ℤ-flag s.leads,
      )
      (ap
        (λ (nick : Bytes).
          read_players whole mine n (suc i) (players ++ record (seen s) { nickname = nick } ∷ [])
            (if bytes_eq nick mine then pos i else index))
        name)

-- The fields of the seats from `i` on are those of `rest`.
read_players-flat :
    (whole mine : Bytes) (rest : List Seat) (i : ℕ) (players : List Player) (index : ℤ)
    → ((j : ℕ) (f : Bytes) → get_elem? (flat rest) j ≡ some f → parse_field whole (i * 4 + j) ≡ f)
    → All IsClean rest
    → read_players whole mine (length rest) i players index
      ≡ some (players ++ seen_all rest, place_of mine i index rest)
unfolding read_players place_of
read_players-flat whole mine [] i players index at a =
    ap (λ l. some (l, index)) (sym (append-nil players))
read_players-flat whole mine (s ∷ rest) i players index at a =
    let start : i * 4 ≡ i * 4 + 0 = omega arith in
    let number =
      λ (n : ℤ) (j : ℕ) (f : Bytes) (e : get_elem? (flat (s ∷ rest)) j ≡ some f) (v : Number f n).
        subst (λ (g : Bytes). Number g n) (sym (at j f e)) v in
    read_players_next whole mine (length rest) i players index s
      (ap (parse_field whole) start ∙ at 0 s.name refl)
      (number _ 1 _ refl (to_string_ℕ-Number s.number a.0.numbered))
      (number _ 2 _ refl (to_string_ℕ-Number s.team (small a.0)))
      (number _ 3 _ refl (flag-Number s.leads)) a.0.named
    ∙ read_players-flat whole mine rest (suc i) (players ++ seen s ∷ [])
        (if bytes_eq s.name mine then pos i else index) behind a.1
    ∙ ap (λ l. some (l, place_of mine (suc i) (if bytes_eq s.name mine then pos i else index) rest))
        (append_assoc players (seen s ∷ []) (seen_all rest))
  where
    shift : (j : ℕ) → suc i * 4 + j ≡ i * 4 + suc (suc (suc (suc j)))
    shift j = omega arith

    behind :
        (j : ℕ) (f : Bytes)
        → get_elem? (flat rest) j ≡ some f
        → parse_field whole (suc i * 4 + j) ≡ f
    behind j f e = ap (parse_field whole) (shift j) ∙ at (suc (suc (suc (suc j)))) f e

zero_plus : (j : ℕ) → 0 * 4 + j ≡ j
zero_plus j = omega arith

length-seats : (w : World) (i : ℕ) (ps : List GamePlayer) → length (seats w i ps) ≡ length ps
unfolding seats
length-seats w i [] = refl
length-seats w i (p ∷ ps) = ap suc (length-seats w (suc i) ps)

module _ {O : Type 0} (on : Notice → GameState → O → O) where
  handle_game_init-flat :
      (ss : List Seat) (c : Client O)
      → length ss ≡ 6
      → All IsClean ss
      → (handle_game_init on (join (flat ss)) c).state
        ≡ record (find_myself (seen_all ss) (place_of c.state.username 0 minus_one ss) c.state) {
          players = seen_all ss;
        }
  unfolding handle_game_init
  handle_game_init-flat ss c n a =
      let start =
        read_players-flat (join (flat ss)) c.state.username ss 0 [] minus_one
          (λ j f e.
            ap (parse_field (join (flat ss))) (zero_plus j)
            ∙ parse_field_at (flat ss) j f e (flat-AllLack ss a))
          a in
      let read =
        subst
          (λ (k : ℕ).
            read_players (join (flat ss)) c.state.username k 0 [] minus_one
            ≡ some (seen_all ss, place_of c.state.username 0 minus_one ss))
          n start in
      rw (read, handle_game_init) (update_players_state on (seen_all ss) _)

  -- The client reads the seats back and looks for itself at the last place with its name.
  pub game_init_read :
      (g : Game) (w : World) (c : Client O)
      → length g.players ≡ 6
      → All IsClean (seats w 0 g.players)
      → let ss = seats w 0 g.players in
        (process_packet on (create_game_init_message g w) c).state
        ≡ record (find_myself (seen_all ss) (place_of c.state.username 0 minus_one ss) c.state) {
          players = seen_all ss;
        }
  unfolding create_game_init_message packet
  game_init_read g w c n a =
      ap (λ (m : Bytes). (process_packet on (pkt_game_init ++ m) c).state)
        (init_entries-flat w 0 g.players)
      ∙ by_seats (seats w 0 g.players) (length-seats w 0 g.players ∙ n) a
    where
      by_seats :
          (ss : List Seat)
          → length ss ≡ 6
          → All IsClean ss
          → (process_packet on (packet pkt_game_init (flat ss)) c).state
            ≡ record (find_myself
                (seen_all ss)
                (place_of c.state.username 0 minus_one ss)
                c.state) { players = seen_all ss }
      by_seats [] n a = absurd (omega arith)
      by_seats (s ∷ ss) n a =
          ap (λ (d : Client O). d.state)
            (process_packet-game_init on s.name
              (to_string_ℕ s.number ∷ to_string_ℕ s.team ∷ to_string_ℕ (flag s.leads) ∷ flat ss) c)
          ∙ handle_game_init-flat (s ∷ ss) c n a
