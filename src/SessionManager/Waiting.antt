-- ===== src/SessionManager/Waiting.antt =====
-- The matching queue: GetWaitingPlayers of CodeNamesServer/src/SessionManager.cpp cleans the queue,
-- and what becomes of a session that asks for a match again and again.
use codenames_cpp_vibecoding.Prelude.{
  ℕ, zero, suc, ◌<◌, ◌==◌, ◌≡◌, refl, ◌∙◌, ap, arith, true, false, List, [], ◌∷◌, ◌++◌, some,
  replicate, length, if◌then◌else◌, Option-cases, Bool-cases, inl, inr,
}
use codenames_cpp_vibecoding.Text.{Bytes}
use codenames_cpp_vibecoding.Text.Fields.{bytes_eq_refl}
use codenames_cpp_vibecoding.Protocol.{packet, pkt_query_wait, pkt_queue_full}
use codenames_cpp_vibecoding.Game.{max_players}
use codenames_cpp_vibecoding.Assoc
use codenames_cpp_vibecoding.Session.{World, Session, post_send, set_in_matching_queue}
use codenames_cpp_vibecoding.Session.Sending.{post_send_sessions}
use codenames_cpp_vibecoding.Session.Heap.{modify_self}
use codenames_cpp_vibecoding.SessionManager.{
  SessionManager, Hub, nat_eq, waiting_one, drain, get_waiting_players, add_to_matching_queue,
}
use codenames_cpp_vibecoding.SessionManager.Lobby.{
  tell_each, wait_message, announce_queue, handle_lobby_request, handle_lobby_packet,
}
use codenames_cpp_vibecoding.SessionManager.Lobby.Requests.{parse_lobby-packet}

-- The session behind a socket, if it is registered and its flag is set.
abbrev pub IsWaiting : List (ℕ × ℕ) → World → ℕ → ℕ → Type 0
IsWaiting m w socket p =
    (Assoc.lookup nat_eq socket m ≡ some p) × ((w.sessions p).is_in_matching_queue ≡ true)

waiting_one-some :
    (m : List (ℕ × ℕ)) (w : World) (socket p : ℕ)
    → IsWaiting m w socket p
    → waiting_one m w socket ≡ some p
unfolding waiting_one
waiting_one-some m w socket p (e, f) = rw (e, f, waiting_one)

drain-append :
    (m : List (ℕ × ℕ)) (w : World) (xs ys : List ℕ)
    → drain m w (xs ++ ys)
      ≡ ((drain m w xs).0 ++ (drain m w ys).0, (drain m w xs).1 ++ (drain m w ys).1)
unfolding drain
drain-append m w [] ys = refl
drain-append m w (s ∷ xs) ys = elim (Option-cases (waiting_one m w s)) [
  | inl e ↦ rw (e, drain) (drain-append m w xs ys)
  | inr (p, e) ↦ rw (e, drain-append m w xs ys, drain)
]

drain_again :
    (m : List (ℕ × ℕ)) (w : World) (xs : List ℕ) → drain m w (drain m w xs).1 ≡ drain m w xs
unfolding drain
drain_again m w [] = refl
drain_again m w (s ∷ xs) = elim (Option-cases (waiting_one m w s)) [
  | inl e ↦ rw (e, drain) (drain_again m w xs)
  | inr (p, e) ↦ rw (e, drain) (rw (e, drain_again m w xs))
]

-- The queue that GetWaitingPlayers leaves gives the same players again, and is left as it is.
pub get_waiting_players_again :
    (m : SessionManager) (w : World)
    → get_waiting_players (get_waiting_players m w).1 w ≡ get_waiting_players m w
unfolding get_waiting_players
get_waiting_players_again m w = rw (drain_again m.sessions w m.matching_queue)

-- One session's entries in a queue: each is one more player.
drain-replicate :
    (m : List (ℕ × ℕ)) (w : World) (socket p k : ℕ)
    → IsWaiting m w socket p
    → drain m w (replicate k socket) ≡ (replicate k p, replicate k socket)
unfolding drain
drain-replicate m w socket p zero h = refl
drain-replicate m w socket p (suc k) h =
    rw (waiting_one-some m w socket p h, drain-replicate m w socket p k h, drain)

-- A registered session that has asked `k` times: its entries are the queue.
record Queued (k socket p : ℕ) (h : Hub) : Type 0 where
  queue : h.manager.matching_queue ≡ replicate k socket
  here : Assoc.lookup nat_eq socket h.manager.sessions ≡ some p
  own : (h.world.sessions p).socket ≡ socket

replicate_snoc : (k s : ℕ) → replicate k s ++ s ∷ [] ≡ replicate (suc k) s
replicate_snoc zero s = refl
replicate_snoc (suc k) s = rw (replicate_snoc k s)

length-replicate : (k s : ℕ) → length (replicate k s) ≡ k
length-replicate zero s = refl
length-replicate (suc k) s = ap suc (length-replicate k s)

-- The entry that AddToMatchingQueue appends, although the session may be queued already.
ask-Queued :
    (k socket p : ℕ) (h : Hub)
    → Queued k socket p h
    → let (h', done) = add_to_matching_queue (some p) h in
      (done ≡ true)
      × Queued (suc k) socket p h'
      × ((h'.world.sessions p).is_in_matching_queue ≡ true)
      × ((h'.world.sessions p).token ≡ (h.world.sessions p).token)
      × (h'.requests ≡ h.requests)
unfolding add_to_matching_queue
ask-Queued k socket p h q =
    let self = modify_self p (set_in_matching_queue true) h.world in
    rw (q.own, Assoc.lookup-contains nat_eq socket h.manager.sessions q.here, add_to_matching_queue)
      (
        refl,
        record {
          queue = rw q.queue (replicate_snoc k socket);
          here = q.here;
          own = ap (λ (s : Session). s.socket) self ∙ q.own;
        },
        ap (λ (s : Session). s.is_in_matching_queue) self,
        ap (λ (s : Session). s.token) self,
        refl,
      )

tell_each_sessions :
    (m : Bytes) (ps : List ℕ) (w : World) → (tell_each m ps w).sessions ≡ w.sessions
unfolding tell_each
tell_each_sessions m [] w = refl
tell_each_sessions m (p ∷ ps) w =
    tell_each_sessions m ps (post_send p m w) ∙ post_send_sessions p m w

-- What is announced when `suc k` entries of the session wait.
announce-Queued :
    (k socket p : ℕ) (h : Hub)
    → Queued (suc k) socket p h
    → (h.world.sessions p).is_in_matching_queue ≡ true
    → Queued (suc k) socket p (announce_queue h)
      × ((announce_queue h).world.sessions ≡ h.world.sessions)
      × ((announce_queue h).requests
          ≡ (if suc k == max_players then h.requests ++ replicate (suc k) p ∷ [] else h.requests))
unfolding announce_queue get_waiting_players
announce-Queued k socket p h q waiting =
    let drained : drain h.manager.sessions h.world h.manager.matching_queue
        ≡ (replicate (suc k) p, replicate (suc k) socket) =
      ap (drain h.manager.sessions h.world) q.queue
      ∙ drain-replicate h.manager.sessions h.world socket p (suc k) (q.here, waiting) in
    elim (Bool-cases (suc k == max_players)) [
      | inl e ↦
          let told = tell_each_sessions pkt_queue_full (replicate (suc k) p) h.world in
          rw (drained, length-replicate k p, e, announce_queue)
            (
              record {
                queue = refl;
                here = q.here;
                own = ap (λ (f : ℕ → Session). (f p).socket) told ∙ q.own;
              },
              told,
              refl,
            )
      | inr e ↦
          let told = tell_each_sessions (wait_message (suc k)) (replicate (suc k) p) h.world in
          rw (drained, length-replicate k p, e, announce_queue)
            (
              record {
                queue = refl;
                here = q.here;
                own = ap (λ (f : ℕ → Session). (f p).socket) told ∙ q.own;
              },
              told,
              refl,
            )
    ]

-- QUERY_WAIT with the session's own token, as HandleLobbyPacket takes it.
pub query : ℕ → Hub → Hub
query p h = handle_lobby_packet p (packet pkt_query_wait ((h.world.sessions p).token ∷ [])) h

query-Queued :
    (k socket p : ℕ) (h : Hub)
    → Queued k socket p h
    → Queued (suc k) socket p (query p h)
      × ((query p h).requests
          ≡ (if suc k == max_players then h.requests ++ replicate (suc k) p ∷ [] else h.requests))
unfolding query handle_lobby_packet handle_lobby_request
query-Queued k socket p h q =
    let (done, queued, waiting, token, same) = ask-Queued k socket p h q in
    let (after, told, asked) =
      announce-Queued k socket p (add_to_matching_queue (some p) h).0 queued waiting in
    rw
      (
        (parse_lobby-packet (h.world.sessions p).token).0,
        bytes_eq_refl (h.world.sessions p).token,
        done,
        handle_lobby_request,
      )
      (
        after,
        asked
            ∙ ap
                (λ (rs : List (List ℕ)).
                  if suc k == max_players then rs ++ replicate (suc k) p ∷ [] else rs)
                same,
      )

-- `k` such packets in a row.
pub queries : ℕ → ℕ → Hub → Hub
queries p zero h = h
queries p (suc k) h = query p (queries p k h)

queries-Queued :
    (k socket p : ℕ) (h : Hub)
    → Queued 0 socket p h
    → k < max_players
    → Queued k socket p (queries p k h) × ((queries p k h).requests ≡ h.requests)
unfolding queries
queries-Queued zero socket p h q l = (q, refl)
queries-Queued (suc k) socket p h q l =
    let (before, none_yet) = queries-Queued k socket p h q (omega arith) in
    let (after, asked) = query-Queued k socket p (queries p k h) before in
    let fewer : (suc k == max_players) ≡ false = ground arith in (after, asked ∙ rw fewer none_yet)

-- A registered session alone fills a room: with an empty queue, no room is asked for while it sends
-- fewer than six QUERY_WAIT packets with its own token, and behind the sixth a room is asked for
-- whose six players are all this session.
pub one_client_fills_queue :
    (p : ℕ) (h : Hub)
    → h.manager.matching_queue ≡ []
    → Assoc.lookup nat_eq (h.world.sessions p).socket h.manager.sessions ≡ some p
    → ((k : ℕ) → k < max_players → (queries p k h).requests ≡ h.requests)
      × ((queries p max_players h).requests ≡ h.requests ++ replicate max_players p ∷ [])
unfolding queries
one_client_fills_queue p h empty here =
    let socket = (h.world.sessions p).socket in
    let start : Queued 0 socket p h = record { queue = empty; here = here; own = refl } in
    let (five, none_yet) = queries-Queued 5 socket p h start (omega arith) in
    (
      λ k l. (queries-Queued k socket p h start l).1,
      (query-Queued 5 socket p (queries p 5 h) five).1
          ∙ ap (λ (rs : List (List ℕ)). rs ++ replicate 6 p ∷ []) none_yet,
    )
