-- ===== src/Game/Broadcast.antt =====
-- The messages of GameManager.cpp and who gets them: BroadcastToAll, BroadcastToTeam,
-- BroadcastGameSystemMessage, SendAllCards, SendAllCardsToAll, SendCardUpdate, SendGameInit,
-- SendGameState and CreateGameInitMessage.
pub mod Delivery
use codenames_cpp_vibecoding.Prelude.{
  ℕ, zero, suc, ◌==◌, Bool, true, false, ◌&&◌, ◌||◌, List, [], ◌∷◌, ◌++◌, Option, none, some,
  if◌then◌else◌, ltb, get_elem?, ℤ, pos,
}
use codenames_cpp_vibecoding.Text.{Bytes, text, is_empty, to_string_ℕ, to_string}
use codenames_cpp_vibecoding.Protocol.{
  pkt_chat, pkt_all_cards, pkt_card_update, pkt_game_init, pkt_turn_update, pkt_empty, fields,
  packet,
}
use codenames_cpp_vibecoding.Session.{World, post_send}
use codenames_cpp_vibecoding.Game.{
  Game, GamePlayer, GameCard, Room, Team, system, spymaster, is_spymaster, team_num, phase_num,
  card_type_num, same_team, max_cards,
}

-- A session gets the message unless it is null or closed.
unfoldable pub deliver : Bytes → Option ℕ → World → World
deliver m none w = w
deliver m (some s) w = if (w.sessions s).is_closed then w else post_send s m w

unfoldable pub broadcast_each : Bytes → List GamePlayer → World → World
broadcast_each m [] w = w
broadcast_each m (p ∷ ps) w = broadcast_each m ps (deliver m p.session w)

unfoldable pub broadcast_to_all : Bytes → Room → Room
unfolding broadcast_each deliver
broadcast_to_all m r =
    if is_empty m then r else record r { world = broadcast_each m r.game.players r.world }

broadcast_team_each : Team → Bytes → List GamePlayer → World → World
broadcast_team_each t m [] w = w
broadcast_team_each t m (p ∷ ps) w =
    broadcast_team_each t m ps (if same_team p.team t then deliver m p.session w else w)

unfoldable pub broadcast_to_team : Team → Bytes → Room → Room
unfolding broadcast_team_each deliver
broadcast_to_team t m r =
    if is_empty m then r else record r { world = broadcast_team_each t m r.game.players r.world }

unfoldable pub system_message : Bytes → Bytes
system_message m =
    packet pkt_chat (to_string_ℕ (team_num system) ∷ text "0" ∷ text "SYSTEM" ∷ m ∷ [])

unfoldable pub broadcast_game_system_message : Bytes → Room → Room
broadcast_game_system_message m = broadcast_to_all (system_message m)

unfoldable pub flag : Bool → ℕ
flag true = 1
flag false = 0

unfoldable pub card_fields : List GameCard → Bytes
card_fields [] = []
card_fields (c ∷ cs) =
    fields (c.word ∷ to_string_ℕ (card_type_num c.card_type) ∷ to_string_ℕ (flag c.is_used) ∷ [])
    ++ card_fields cs

unfoldable pub all_cards_message : Game → Bytes
unfolding card_fields flag
all_cards_message g = pkt_all_cards ++ card_fields g.cards

unfoldable pub send_all_cards : Option ℕ → Room → Room
unfolding deliver
send_all_cards s r = record r { world = deliver (all_cards_message r.game) s r.world }

unfoldable pub send_all_cards_each : Bytes → List GamePlayer → World → World
send_all_cards_each m [] w = w
send_all_cards_each m (p ∷ ps) w = send_all_cards_each m ps (deliver m p.session w)

unfoldable pub send_all_cards_to_all : Room → Room
unfolding send_all_cards_each deliver
send_all_cards_to_all r = record r {
  world = send_all_cards_each (all_cards_message r.game) r.game.players r.world;
}

unfoldable pub card_update_message : ℕ → GameCard → ℤ → Bytes
unfolding flag
card_update_message i c tries =
    packet pkt_card_update (to_string_ℕ i ∷ to_string_ℕ (flag c.is_used) ∷ to_string tries ∷ [])

-- The guard on the index; cards_[cardIndex] is read behind it.
unfoldable pub send_card_update : ℤ → Room → Room
send_card_update (pos i) r =
    if ltb i max_cards
    then elim (get_elem? r.game.cards i) [
      | none ↦ r
      | some c ↦ broadcast_to_all (card_update_message i c r.game.remaining_tries) r
    ]
    else r
send_card_update i r = r

unfoldable pub turn_update_message : Game → Bytes
turn_update_message g = packet pkt_turn_update (
    to_string_ℕ (team_num g.current_turn)
    ∷ to_string_ℕ (phase_num g.current_phase)
    ∷ to_string_ℕ g.red_score
    ∷ to_string_ℕ g.blue_score
    ∷ [])

unfoldable pub send_game_state : Room → Room
send_game_state r = broadcast_to_all (turn_update_message r.game) r

-- One entry of GAME_INIT for the slot `i`; an empty slot is described from its index.
unfoldable pub init_entry : World → ℕ → GamePlayer → Bytes
init_entry w i p = elim p.session [
  | none ↦ fields (
      pkt_empty
      ∷ to_string_ℕ i
      ∷ to_string_ℕ (if ltb i 3 then 0 else 1)
      ∷ to_string_ℕ (if i == 0 || i == 3 then 1 else 0)
      ∷ [])
  | some s ↦ fields (
      (w.sessions s).username
      ∷ to_string_ℕ p.role_num
      ∷ to_string_ℕ (team_num p.team)
      ∷ (if is_spymaster p.role then text "1" else text "0")
      ∷ [])
]

unfoldable pub init_entries : World → ℕ → List GamePlayer → Bytes
init_entries w i [] = []
init_entries w i (p ∷ ps) = init_entry w i p ++ init_entries w (suc i) ps

unfoldable pub create_game_init_message : Game → World → Bytes
unfolding init_entries init_entry
create_game_init_message g w = pkt_game_init ++ init_entries w 0 g.players

unfoldable pub send_game_init : Room → Room
send_game_init r = broadcast_to_all (create_game_init_message r.game r.world) r
