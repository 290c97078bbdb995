-- ===== src/SessionManager/Lobby.antt =====
-- SessionManager::HandleLobbyPacket: the matching requests of a client that is logged in.
pub mod Requests
use codenames_cpp_vibecoding.Prelude.{
  ℕ, ◌==◌, Bool, true, false, List, [], ◌∷◌, ◌++◌, Option, none, some, if◌then◌else◌, length,
}
use codenames_cpp_vibecoding.Text.{Bytes, bytes_eq, to_string_ℕ}
use codenames_cpp_vibecoding.Protocol.{
  pkt_query_wait, pkt_session_ready, pkt_matching_cancel, pkt_queue_full, pkt_wait_reply,
  pkt_queue_error, pkt_invalid_token, pkt_session_ack, pkt_session_not_found, pkt_cancel_ok,
  pkt_lobby_error_unknown, packet, payload,
}
use codenames_cpp_vibecoding.Session.{World, post_send}
use codenames_cpp_vibecoding.Game.{max_players}
use codenames_cpp_vibecoding.SessionManager.{
  SessionManager, Hub, add_to_matching_queue, remove_from_matching_queue, get_waiting_players,
}

-- PostSend to one session of the hub.
unfoldable pub reply : ℕ → Bytes → Hub → Hub
reply p message h = record h { world = post_send p message h.world }

-- PostSend to each player of a list, open or closed.
unfoldable pub tell_each : Bytes → List ℕ → World → World
tell_each message [] w = w
tell_each message (p ∷ ps) w = tell_each message ps (post_send p message w)

pub wait_message : ℕ → Bytes
wait_message n = packet pkt_wait_reply (to_string_ℕ n ∷ to_string_ℕ max_players ∷ [])

-- With exactly six waiting players a thread is started for their room; otherwise the waiting
-- players learn how many they are.
unfoldable pub announce_queue : Hub → Hub
announce_queue h =
    let (players, cleaned) = get_waiting_players h.manager h.world in
    if length players == max_players
    then record h {
      manager = cleaned;
      world = tell_each pkt_queue_full players h.world;
      requests = h.requests ++ players ∷ [];
    }
    else record h {
      manager = cleaned;
      world = tell_each (wait_message (length players)) players h.world;
    }

-- What a lobby packet asks for; the tags are tried in this order.
pub data LobbyRequest : Type 0 where
  query_wait session_ready matching_cancel : Bytes → LobbyRequest
  unknown : LobbyRequest

unfoldable pub parse_lobby : Bytes → LobbyRequest
parse_lobby d = elim (payload pkt_query_wait d) [
  | some token ↦ query_wait token
  | none ↦ elim (payload pkt_session_ready d) [
    | some token ↦ session_ready token
    | none ↦ elim (payload pkt_matching_cancel d) [
      | some token ↦ matching_cancel token
      | none ↦ unknown
    ]
  ]
]

-- The request of the session `p`, with the token compared to its own.
unfoldable pub handle_lobby_request : ℕ → LobbyRequest → Hub → Hub
unfolding reply announce_queue
handle_lobby_request p (query_wait token) h =
    if bytes_eq token (h.world.sessions p).token
    then (let (queued, done) = add_to_matching_queue (some p) h in
        if done then announce_queue queued else reply p pkt_queue_error queued)
    else reply p pkt_invalid_token h
handle_lobby_request p (session_ready token) h =
    if bytes_eq token (h.world.sessions p).token
    then reply p pkt_session_ack h
    else reply p pkt_session_not_found h
handle_lobby_request p (matching_cancel token) h =
    if bytes_eq token (h.world.sessions p).token
    then reply p pkt_cancel_ok (remove_from_matching_queue (some p) h)
    else reply p pkt_cancel_ok h
handle_lobby_request p unknown h = reply p pkt_lobby_error_unknown h

unfoldable pub handle_lobby_packet : ℕ → Bytes → Hub → Hub
handle_lobby_packet p d h = handle_lobby_request p (parse_lobby d) h
