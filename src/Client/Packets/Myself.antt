-- ===== src/Client/Packets/Myself.antt =====
-- How the client finds itself in GAME_INIT: HandleGameInit compares the slots' names, which are the
-- nicknames of the accounts, with GameState::username, which LoginSceneLoop has set to the user name
-- that was typed.
use codenames_cpp_vibecoding.Prelude.{
  ℕ, suc, ◌+◌, ◌≡◌, refl, ◌∙◌, ap, arith, true, false, List, [], ◌∷◌, ◌++◌, some, if◌then◌else◌, ℤ,
  pos, get_elem?, All, length, Bool-cases, inl, inr,
}
use codenames_cpp_vibecoding.Text.{Bytes, bytes_eq}
use codenames_cpp_vibecoding.Session.{World}
use codenames_cpp_vibecoding.Game.{Game}
use codenames_cpp_vibecoding.Game.Broadcast.{create_game_init_message}
use codenames_cpp_vibecoding.Client.{GameState, Client, Notice, minus_one}
use codenames_cpp_vibecoding.Client.Packets.{find_myself}
use codenames_cpp_vibecoding.Client.Packets.Dispatch.{process_packet}
use codenames_cpp_vibecoding.Client.Packets.Seats.{
  Seat, IsClean, seats, seen, seen_all, place_of, game_init_read,
}

-- The seats bear other names.
abbrev pub NoneNamed : Bytes → List Seat → Type 0
NoneNamed mine = All (λ s. bytes_eq s.name mine ≡ false)

place_of_absent :
    (mine : Bytes) (i : ℕ) (index : ℤ) (ss : List Seat)
    → NoneNamed mine ss
    → place_of mine i index ss ≡ index
unfolding place_of
place_of_absent mine i index [] a = refl
place_of_absent mine i index (s ∷ ss) a = rw a.0 (place_of_absent mine (suc i) index ss a.1)

place_of-append :
    (mine : Bytes) (i : ℕ) (index : ℤ) (fore aft : List Seat) (s : Seat)
    → bytes_eq s.name mine ≡ true
    → NoneNamed mine aft
    → place_of mine i index (fore ++ s ∷ aft) ≡ pos (i + length fore)
unfolding place_of
place_of-append mine i index [] aft s e a =
    let here : i ≡ i + 0 = omega arith in
    rw (e, place_of) (place_of_absent mine (suc i) (pos i) aft a ∙ ap pos here)
place_of-append mine i index (f ∷ fore) aft s e a =
    place_of-append mine (suc i) (if bytes_eq f.name mine then pos i else index) fore aft s e a
    ∙ ap pos (shift i (length fore))
  where
    shift : (j k : ℕ) → suc j + k ≡ j + suc k
    shift j k = omega arith

zero_plus : (k : ℕ) → 0 + k ≡ k
zero_plus k = omega arith

get_elem?-seen_all :
    (fore aft : List Seat) (s : Seat)
    → get_elem? (seen_all (fore ++ s ∷ aft)) (length fore) ≡ some (seen s)
get_elem?-seen_all [] aft s = refl
get_elem?-seen_all (f ∷ fore) aft s = get_elem?-seen_all fore aft s

-- A client with the user name `mine` and the state `s` before GAME_INIT has the players of the seats
-- and, where a seat bears its name, the number, the team and the leadership of the last such seat.
-- Nothing else of `s` changes.
pub data Placed (mine : Bytes) (ss : List Seat) (s : GameState) : GameState → Type 0 where
  stranger :
      {t : GameState}
      → NoneNamed mine ss
      → t ≡ record s { players = seen_all ss }
      → Placed mine ss s t
  seated :
      {t : GameState} (fore aft : List Seat) (own : Seat)
      → ss ≡ fore ++ own ∷ aft
      → bytes_eq own.name mine ≡ true
      → NoneNamed mine aft
      → t ≡ record s {
        players = seen_all ss;
        my_player_index = pos (length fore);
        my_team = pos own.team;
        is_my_leader = own.leads;
      }
      → Placed mine ss s t

-- No seat bears the name, or there is a last one that does.
data LastNamed (mine : Bytes) (ss : List Seat) : Type 0 where
  nowhere : NoneNamed mine ss → LastNamed mine ss
  last :
      (fore aft : List Seat) (own : Seat)
      → ss ≡ fore ++ own ∷ aft
      → bytes_eq own.name mine ≡ true
      → NoneNamed mine aft
      → LastNamed mine ss

LastNamed-cons :
    (mine : Bytes) (s : Seat) (ss : List Seat) → LastNamed mine ss → LastNamed mine (s ∷ ss)
LastNamed-cons mine s ss (last fore aft own e named later) =
    last (s ∷ fore) aft own (ap (λ (l : List Seat). s ∷ l) e) named later
LastNamed-cons mine s ss (nowhere a) = elim (Bool-cases (bytes_eq s.name mine)) [
  | inl e ↦ last [] ss s refl e a
  | inr e ↦ nowhere (e, a)
]

last_named : (mine : Bytes) (ss : List Seat) → LastNamed mine ss
last_named mine [] = nowhere tt
last_named mine (s ∷ ss) = LastNamed-cons mine s ss (last_named mine ss)

module _ {O : Type 0} (on : Notice → GameState → O → O) where
  pub game_init_stranger :
      (g : Game) (w : World) (c : Client O)
      → length g.players ≡ 6
      → All IsClean (seats w 0 g.players)
      → NoneNamed c.state.username (seats w 0 g.players)
      → (process_packet on (create_game_init_message g w) c).state
        ≡ record (c.state) { players = seen_all (seats w 0 g.players) }
  unfolding find_myself
  game_init_stranger g w c n a other =
      let ss = seats w 0 g.players in
      game_init_read on g w c n a
      ∙ ap (λ (i : ℤ). record (find_myself (seen_all ss) i c.state) { players = seen_all ss })
          (place_of_absent c.state.username 0 minus_one ss other)

  -- If a slot's name is the client's user name, and that of no later slot is, the client takes this
  -- slot for itself, with the team and the leadership that the server has there. There are six
  -- slots, no name is empty or has a delimiter, and the slots' numbers are `int`s.
  pub game_init_finds :
      (g : Game) (w : World) (c : Client O) (fore aft : List Seat) (s : Seat)
      → length g.players ≡ 6
      → All IsClean (seats w 0 g.players)
      → seats w 0 g.players ≡ fore ++ s ∷ aft
      → bytes_eq s.name c.state.username ≡ true
      → NoneNamed c.state.username aft
      → (process_packet on (create_game_init_message g w) c).state ≡ record (c.state) {
        players = seen_all (seats w 0 g.players);
        my_player_index = pos (length fore);
        my_team = pos s.team;
        is_my_leader = s.leads;
      }
  unfolding find_myself seen
  game_init_finds g w c fore aft s n a e mine later =
      let ss = seats w 0 g.players in
      game_init_read on g w c n a
      ∙ ap (λ (i : ℤ). record (find_myself (seen_all ss) i c.state) { players = seen_all ss })
          (ap (place_of c.state.username 0 minus_one) e
            ∙ place_of-append c.state.username 0 minus_one fore aft s mine later
            ∙ ap pos (zero_plus (length fore)))
      ∙ rw
          (
            ap (λ l. get_elem? (seen_all l) (length fore)) e ∙ get_elem?-seen_all fore aft s,
            find_myself,
          )
          refl

  -- GAME_INIT brings the six slots of the server to the client: each with its name, its team and
  -- whether it leads, and as its role the parity of its number. If slots bear the client's user
  -- name, the client takes the number of the last one for its index, and the team and the leadership
  -- that the server has in that slot for its own; if none does, its index, team and leadership stay.
  -- Nothing else changes. There are six slots, no name is empty or has a delimiter, and the slots'
  -- numbers are `int`s.
  pub game_init-Placed :
      (g : Game) (w : World) (c : Client O)
      → length g.players ≡ 6
      → All IsClean (seats w 0 g.players)
      → Placed c.state.username
          (seats w 0 g.players)
          c.state
          (process_packet on (create_game_init_message g w) c).state
  game_init-Placed g w c n a = elim (last_named c.state.username (seats w 0 g.players)) [
    | nowhere other ↦ stranger other (game_init_stranger g w c n a other)
    | last fore aft own e named later ↦
        seated fore aft own e named later (game_init_finds g w c fore aft own n a e named later)
  ]
