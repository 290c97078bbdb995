-- ===== src/Game/Roster.antt =====
-- The player slots of GameManager.cpp: AddPlayer, RemovePlayer, GetPlayer, GetPlayerByIndex,
-- GetPlayerCount and FindPlayerIndex. A loop with an early return is a recursion on the slots.
use codenames_cpp_vibecoding.Prelude.{
  ℕ, suc, Bool, true, false, List, [], ◌∷◌, Option, none, some, if◌then◌else◌, ltb, get_elem?, ℤ,
  pos, negsuc,
}
use codenames_cpp_vibecoding.Text.{Bytes, bytes_eq}
use codenames_cpp_vibecoding.Session.{World, in_lobby, modify, set_state, set_game_manager}
use codenames_cpp_vibecoding.Game.{Game, GamePlayer, Room, max_players}

-- `players_[i].session && players_[i].session->GetNickname() == nickname`
unfoldable pub holds_nickname : World → Bytes → GamePlayer → Bool
holds_nickname w nickname p = elim p.session [
  | none ↦ false
  | some s ↦ bytes_eq (w.sessions s).username nickname
]

abbrev pub is_free : GamePlayer → Bool
is_free p = elim p.session [ none ↦ true | some s ↦ false ]

-- The first free slot takes the session; `none` if there is none.
seat : ℕ → List GamePlayer → Option (List GamePlayer)
seat s [] = none
seat s (p ∷ ps) =
    let rest = seat s ps in
    if is_free p
    then some (record p { session = some s } ∷ ps)
    else elim rest [ none ↦ none | some qs ↦ some (p ∷ qs) ]

-- `none` is the null session.
unfoldable pub add_player : Option ℕ → Game → Game × Bool
unfolding seat
add_player none g = (g, false)
add_player (some s) g = elim (seat s g.players) [
  | none ↦ (g, false)
  | some ps ↦ (record g { players = ps }, true)
]

-- The slot is emptied; the session that sat there comes back.
unseat : World → Bytes → List GamePlayer → List GamePlayer × Option ℕ
unseat w nickname [] = ([], none)
unseat w nickname (p ∷ ps) =
    let rest = unseat w nickname ps in
    if holds_nickname w nickname p
    then (record p { session = none } ∷ ps, p.session)
    else (p ∷ rest.0, rest.1)

-- The session that left goes back to the lobby.
dismiss : Option ℕ → World → World
dismiss none w = w
dismiss (some s) w = modify s (set_state in_lobby) (modify s (set_game_manager none) w)

unfoldable pub remove_player : Bytes → Room → Room
unfolding unseat dismiss holds_nickname
remove_player nickname r =
    let (players, left) = unseat r.world nickname r.game.players in
    record r { game = record (r.game) { players = players }; world = dismiss left r.world }

first_holder : World → Bytes → List GamePlayer → Option GamePlayer
first_holder w nickname [] = none
first_holder w nickname (p ∷ ps) =
    let rest = first_holder w nickname ps in if holds_nickname w nickname p then some p else rest

unfoldable pub get_player : Bytes → Game → World → Option GamePlayer
unfolding first_holder holds_nickname
get_player nickname g w = first_holder w nickname g.players

-- The slot that an index names, free or not; `none` outside 0 ... MAX_PLAYERS - 1.
unfoldable pub slot : Game → ℤ → Option GamePlayer
slot g (negsuc i) = none
slot g (pos i) = if ltb i max_players then get_elem? g.players i else none

unfoldable pub get_player_by_index : ℤ → Game → Option GamePlayer
unfolding slot
get_player_by_index i g = elim (slot g i) [
  | none ↦ none
  | some p ↦ if is_free p then none else some p
]

count_seated : List GamePlayer → ℕ
count_seated [] = 0
count_seated (p ∷ ps) = let rest = count_seated ps in if is_free p then rest else suc rest

unfoldable pub get_player_count : Game → ℕ
unfolding count_seated
get_player_count g = count_seated g.players

find_from : World → Bytes → ℕ → List GamePlayer → ℤ
find_from w nickname i [] = negsuc 0
find_from w nickname i (p ∷ ps) =
    let rest = find_from w nickname (suc i) ps in
    if holds_nickname w nickname p then pos i else rest

-- -1 if nobody has the nickname.
unfoldable pub find_player_index : Bytes → Game → World → ℤ
unfolding find_from holds_nickname
find_player_index nickname g w = find_from w nickname 0 g.players
