-- ===== src/SessionManager/Lobby/Requests.antt =====
-- What lobby packets can do: a room is only ever requested for six players, and the registry is
-- left alone.
use codenames_cpp_vibecoding.Prelude.{
  ℕ, ◌≡◌, refl, ◌∙◌, List, [], ◌∷◌, ◌++◌, Option, none, some, length, ◌==◌, ==_iff, All, Bool-cases,
  inl, inr,
}
use codenames_cpp_vibecoding.Assoc
use codenames_cpp_vibecoding.Text.{Bytes, bytes_eq, starts_with, text}
use codenames_cpp_vibecoding.Protocol.{
  packet, payload, pkt_query_wait, pkt_session_ready, pkt_matching_cancel,
}
use codenames_cpp_vibecoding.Protocol.Parsing.{packet_one}
use codenames_cpp_vibecoding.Game.{max_players}
use codenames_cpp_vibecoding.SessionManager.{
  Hub, nat_eq, add_to_matching_queue, remove_from_matching_queue, get_waiting_players,
}
use codenames_cpp_vibecoding.SessionManager.Lobby.{
  LobbyRequest, query_wait, session_ready, matching_cancel, unknown, reply, announce_queue,
  parse_lobby, handle_lobby_request, handle_lobby_packet,
}

-- Six players in each room that was asked for.
abbrev pub SixEach : List (List ℕ) → Type 0
SixEach = All (λ (ps : List ℕ). length ps ≡ max_players)

All-snoc :
    (qs : List (List ℕ)) (ps : List ℕ)
    → SixEach qs
    → length ps ≡ max_players
    → SixEach (qs ++ ps ∷ [])
All-snoc [] ps h e = (e, tt)
All-snoc (q ∷ qs) ps h e = (h.0, All-snoc qs ps h.1 e)

-- The parts of a hub that lobby packets leave alone, and the rooms asked for.
pub record Kept (h h' : Hub) : Type 0 where
  pub sessions : h'.manager.sessions ≡ h.manager.sessions
  pub tokens : h'.manager.token_to_socket ≡ h.manager.token_to_socket
  pub count : h'.manager.session_count ≡ h.manager.session_count
  pub six : SixEach h.requests → SixEach h'.requests

reply-Kept : (p : ℕ) (m : Bytes) (h : Hub) → Kept h (reply p m h)
unfolding reply
reply-Kept p m h = record { sessions = refl; tokens = refl; count = refl; six = λ s. s }

announce_queue-Kept : (h : Hub) → Kept h (announce_queue h)
unfolding announce_queue get_waiting_players
announce_queue-Kept h =
    let players = (get_waiting_players h.manager h.world).0 in
    elim (Bool-cases (length players == max_players)) [
      | inl e ↦ rw e (record {
        sessions = refl;
        tokens = refl;
        count = refl;
        six = λ s. All-snoc h.requests players s ((==_iff (length players) max_players).0 e);
      })
      | inr e ↦ rw e (record { sessions = refl; tokens = refl; count = refl; six = λ s. s })
    ]

add-Kept : (p : Option ℕ) (h : Hub) → Kept h (add_to_matching_queue p h).0
unfolding add_to_matching_queue
add-Kept none h = record { sessions = refl; tokens = refl; count = refl; six = λ s. s }
add-Kept (some p) h =
    elim (Bool-cases (Assoc.contains nat_eq (h.world.sessions p).socket h.manager.sessions)) [
      | inl e ↦ rw e (record { sessions = refl; tokens = refl; count = refl; six = λ s. s })
      | inr e ↦ rw e (record { sessions = refl; tokens = refl; count = refl; six = λ s. s })
    ]

remove-Kept : (p : Option ℕ) (h : Hub) → Kept h (remove_from_matching_queue p h)
unfolding remove_from_matching_queue
remove-Kept none h = record { sessions = refl; tokens = refl; count = refl; six = λ s. s }
remove-Kept (some p) h = record { sessions = refl; tokens = refl; count = refl; six = λ s. s }

Kept-trans : {f g h : Hub} → Kept f g → Kept g h → Kept f h
Kept-trans a b = record {
  sessions = b.sessions ∙ a.sessions;
  tokens = b.tokens ∙ a.tokens;
  count = b.count ∙ a.count;
  six = λ s. b.six (a.six s);
}

handle_lobby_request-Kept :
    (p : ℕ) (q : LobbyRequest) (h : Hub) → Kept h (handle_lobby_request p q h)
unfolding handle_lobby_request
handle_lobby_request-Kept p (query_wait token) h =
    elim (Bool-cases (bytes_eq token (h.world.sessions p).token)) [
      | inl e ↦ rw e (elim (Bool-cases (add_to_matching_queue (some p) h).1) [
        | inl f ↦ rw f (Kept-trans (add-Kept (some p) h) (announce_queue-Kept _))
        | inr f ↦ rw f (Kept-trans (add-Kept (some p) h) (reply-Kept p _ _))
      ])
      | inr e ↦ rw e (reply-Kept p _ h)
    ]
handle_lobby_request-Kept p (session_ready token) h =
    elim (Bool-cases (bytes_eq token (h.world.sessions p).token)) [
      | inl e ↦ rw e (reply-Kept p _ h)
      | inr e ↦ rw e (reply-Kept p _ h)
    ]
handle_lobby_request-Kept p (matching_cancel token) h =
    elim (Bool-cases (bytes_eq token (h.world.sessions p).token)) [
      | inl e ↦ rw e (Kept-trans (remove-Kept (some p) h) (reply-Kept p _ _))
      | inr e ↦ rw e (reply-Kept p _ h)
    ]
handle_lobby_request-Kept p unknown h = reply-Kept p _ h

-- Whatever a client sends to the lobby, the registered sessions, the tokens and the count stay,
-- and if every room asked for so far has six players, so has every room asked for afterwards.
pub handle_lobby_packet-Kept : (p : ℕ) (d : Bytes) (h : Hub) → Kept h (handle_lobby_packet p d h)
unfolding handle_lobby_packet
handle_lobby_packet-Kept p d h = handle_lobby_request-Kept p (parse_lobby d) h

-- Each request of the protocol, written as a packet, is read back with its token.
pub parse_lobby-packet :
    (t : Bytes)
    → (parse_lobby (packet pkt_query_wait (t ∷ [])) ≡ query_wait t)
      × (parse_lobby (packet pkt_session_ready (t ∷ [])) ≡ session_ready t)
      × (parse_lobby (packet pkt_matching_cancel (t ∷ [])) ≡ matching_cancel t)
unfolding parse_lobby payload starts_with text
parse_lobby-packet t = (
  rw (packet_one pkt_query_wait t) refl,
  rw (packet_one pkt_session_ready t) refl,
  rw (packet_one pkt_matching_cancel t) refl,
)
