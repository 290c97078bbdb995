-- ===== src/Client/Mirror/Receives.antt =====
-- The receives of a client: WSARecv in CodeNamesClient/src/core/IOCPClient.cpp brings at most 2048
-- bytes, and OnNetworkDataReceived in src/main.cpp takes what one receive brings for one packet.
use codenames_cpp_vibecoding.Prelude.{
  ℕ, ◌==◌, ◌≡◌, refl, sym, subst, arith, Bool, true, not, ◌&&◌, ◌||◌, List, [], ◌∷◌, Option,
  if◌then◌else◌, leb, length, take, drop, map, All, Bool-cases, inl, inr,
}
use mathlib.Core.List.{Perm}
use codenames_cpp_vibecoding.Text.{Bytes}
use codenames_cpp_vibecoding.Session.{Effect, sent, saved}
use codenames_cpp_vibecoding.Session.Sending.{Fits}
use codenames_cpp_vibecoding.Game.{Room, CardType, new_game, max_players}
use codenames_cpp_vibecoding.Game.Broadcast.{all_cards_message}
use codenames_cpp_vibecoding.Game.Roster.{get_player_count}
use codenames_cpp_vibecoding.Game.Start.{start_game, initialize_game, vacate}
use codenames_cpp_vibecoding.Client.{GameState, Client, Notice}
use codenames_cpp_vibecoding.Client.Network.{buffer_size}
use codenames_cpp_vibecoding.Client.Packets.Cards.{IsSendable}
use codenames_cpp_vibecoding.Client.Packets.Dispatch.{process_packet}
use codenames_cpp_vibecoding.Client.Mirror.{Listens, Mirrors, replay}
use codenames_cpp_vibecoding.Client.Mirror.Runs.{Run, start_game-Run-Synced}

-- The receives in which a message arrives that nothing else is glued to. PostSend sends at most 4096
-- bytes, so two are enough.
unfoldable pub receives : Bytes → List Bytes
receives m =
    if leb (length m) buffer_size then m ∷ [] else take buffer_size m ∷ drop buffer_size m ∷ []

-- Every message that went to the session `me` fits one receive.
unfoldable pub is_whole : ℕ → List Effect → Bool
is_whole me [] = true
is_whole me (sent p m ∷ es) = (not (p == me) || leb (length m) buffer_size) && is_whole me es
is_whole me (saved name outcome ∷ es) = is_whole me es

module _ {O : Type 0} (on : Notice → GameState → O → O) where
  take_each : List Bytes → Client O → Client O
  take_each [] c = c
  take_each (m ∷ ms) c = take_each ms (process_packet on m c)

  -- The client of the session `me`, which takes each receive for a packet.
  unfoldable pub watch : ℕ → List Effect → Client O → Client O
  unfolding take_each receives
  watch me [] c = c
  watch me (sent p m ∷ es) c = watch me es (if p == me then take_each (receives m) c else c)
  watch me (saved name outcome ∷ es) c = watch me es c

  watch-replay :
      (me : ℕ) (es : List Effect) (c : Client O)
      → is_whole me es ≡ true
      → watch me es c ≡ replay on me es c
  unfolding watch replay is_whole
  watch-replay me [] c w = refl
  watch-replay me (sent p m ∷ es) c w = elim (Bool-cases (p == me)) [
    | inr other ↦ rw (other, watch, replay) (watch-replay me es c (ground (arith, w, other)))
    | inl mine ↦
        let fits : leb (length m) buffer_size ≡ true = ground (arith, w, mine) in
        rw (mine, fits, watch, replay)
          (watch-replay me es (process_packet on m c) (ground (arith, w, mine)))
  ]
  watch-replay me (saved name outcome ∷ es) c w = watch-replay me es c w

  -- Let six players sit in the room, in the slots that the constructor made and the session `me` open
  -- among them, and the shuffle only reorder; let the words of the new game be not empty and without
  -- a delimiter, and the board fit the send buffer. From StartGame on, let packets of any players
  -- arrive while `me` sits in an open slot, with any changes of the sessions in between; and let every
  -- message that has been sent to `me` by then have at most 2048 bytes and arrive in a receive of its
  -- own, glued to no other. Then the client of `me`, which has taken all these receives in the order
  -- of the sends, shows the cards, the turn and the phase of the game as they are on the server, and
  -- the end of the game when it is over.
  pub start_game-Mirrors :
      (me : ℕ) (c : Client O) (file : Option Bytes) (shuffle : List CardType → List CardType)
      (now : ℕ) (r : Room) {q : Room}
      → ((ts : List CardType) → Perm ts (shuffle ts))
      → map vacate r.game.players ≡ (new_game []).players
      → get_player_count r.game ≡ max_players
      → Listens me r
      → All IsSendable (initialize_game file shuffle r.game).cards
      → Fits (all_cards_message (initialize_game file shuffle r.game))
      → Run me (start_game file shuffle now r).0 q
      → is_whole me q.world.log ≡ true
      → Mirrors q.game (watch me q.world.log c).state
  start_game-Mirrors me c file shuffle now r {q} shuffles seats six l words fits run whole =
      subst (λ (d : Client O). Mirrors q.game d.state) (sym (watch-replay me q.world.log c whole))
        (start_game-Run-Synced on me c file shuffle now r shuffles seats six l words fits run)
