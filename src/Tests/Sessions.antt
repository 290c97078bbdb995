-- ===== src/Tests/Sessions.antt =====
-- The theorems on the registry and the lobby at concrete values.
use codenames_cpp_vibecoding.Prelude.{ℕ, ◌<◌, ◌≡◌, refl, true, [], ◌∷◌, ◌++◌, replicate}
use codenames_cpp_vibecoding.Assoc
use codenames_cpp_vibecoding.Text.{Bytes, text, bytes_eq, starts_with}
use codenames_cpp_vibecoding.Protocol.{packet, fields, payload, pkt_query_wait}
use codenames_cpp_vibecoding.Session.{modify}
use codenames_cpp_vibecoding.Game.{max_players}
use codenames_cpp_vibecoding.SessionManager.{Hub, add_to_matching_queue, get_waiting_players}
use codenames_cpp_vibecoding.SessionManager.Waiting.{queries, one_client_fills_queue}
use codenames_cpp_vibecoding.SessionManager.Lobby.{
  handle_lobby_packet, handle_lobby_request, parse_lobby,
}
use codenames_cpp_vibecoding.SessionManager.Lobby.Requests.{Kept, handle_lobby_packet-Kept}
use codenames_cpp_vibecoding.Tests.Fixtures.{demo_manager, demo_hub, demo_world, demo_session}

one_client_fills_queue_example :
    ((k : ℕ) → k < max_players → (queries 1 k demo_hub).requests ≡ demo_hub.requests)
    × ((queries 1 max_players demo_hub).requests
        ≡ demo_hub.requests ++ replicate max_players 1 ∷ [])
unfolding Assoc.lookup
one_client_fills_queue_example = one_client_fills_queue 1 demo_hub refl refl

-- Five sessions wait already, and the sixth asks for a match.
abbrev five_waiting : Hub
five_waiting = record {
  manager = record demo_manager {
    sessions = (100, 0) ∷ (101, 1) ∷ (102, 2) ∷ (103, 3) ∷ (104, 4) ∷ (105, 5) ∷ [];
    matching_queue = 100 ∷ 101 ∷ 102 ∷ 103 ∷ 104 ∷ [];
    session_count = 6;
  };
  world = record demo_world {
    sessions = λ q. record (demo_session q) { is_in_matching_queue = true };
  };
  requests = [];
}

abbrev sixth_query : Bytes
sixth_query = packet pkt_query_wait ([] ∷ [])

handle_lobby_packet-Kept_example :
    Kept five_waiting (handle_lobby_packet 5 sixth_query five_waiting)
handle_lobby_packet-Kept_example = handle_lobby_packet-Kept 5 sixth_query five_waiting

sixth_query_asks :
    (handle_lobby_packet 5 sixth_query five_waiting).requests ≡ (0 ∷ 1 ∷ 2 ∷ 3 ∷ 4 ∷ 5 ∷ []) ∷ []
unfolding handle_lobby_packet handle_lobby_request parse_lobby payload starts_with text packet
    fields bytes_eq add_to_matching_queue get_waiting_players Assoc.contains Assoc.lookup modify
sixth_query_asks = refl
