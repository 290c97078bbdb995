-- ===== src/Client/Packets/Messages.antt =====
-- What the client makes of the messages that the server sends during a game.
use codenames_cpp_vibecoding.Prelude.{
  ℕ, ◌≡◌, refl, ◌∙◌, ap, true, false, List, [], ◌∷◌, ◌++◌, some, none, ℤ, pos, get_elem?, set,
}
use codenames_cpp_vibecoding.Text.{Bytes, text, pipe, is_empty, split_at, bytes_eq}
use codenames_cpp_vibecoding.Text.Fields.{Lacks, split_at-append, split_at-none-Lacks}
use codenames_cpp_vibecoding.Text.Numbers.{Number}
use codenames_cpp_vibecoding.Assoc
use codenames_cpp_vibecoding.Protocol.{
  packet, pkt_turn_update, pkt_hint_msg, pkt_card_update, pkt_chat, pkt_game_over, pkt_all_cards,
  pkt_game_init, pkt_answer_result,
}
use codenames_cpp_vibecoding.Client.{
  ClientCard, GameState, Client, Notice, result, with_state, set_turn, add_message,
}
use codenames_cpp_vibecoding.Client.Fields.{parse_field}
use codenames_cpp_vibecoding.Client.Fields.Reading.{join, fields-join}
use codenames_cpp_vibecoding.Client.Packets.{
  winner_note, score_update, hint_given, tries_update, handle_turn_update, handle_hint_msg,
  handle_card_update, handle_chat_msg, handle_game_over, handle_all_cards, handle_game_init,
}
use codenames_cpp_vibecoding.Client.Packets.Dispatch.{
  packet_parts, dispatch_packet, process_packet, default_handlers, run_handler,
}
use codenames_cpp_vibecoding.Client.Packets.Effects.{
  update_score_state, set_hint_state, set_turn_state, reveal_card_state, on_game_over_state,
  add_message_state,
}

full-append : (tag : Bytes) (c : ℕ) (rest : Bytes) → is_empty (tag ++ c ∷ rest) ≡ false
unfolding is_empty
full-append [] c rest = refl
full-append (d ∷ tag) c rest = refl

packet_parts-packet :
    (tag f : Bytes) (fs : List Bytes)
    → Lacks pipe tag
    → packet_parts (packet tag (f ∷ fs)) ≡ (tag, join (f ∷ fs))
unfolding packet packet_parts
packet_parts-packet tag f fs l =
    rw (fields-join f fs) (rw (split_at-append pipe tag (join (f ∷ fs)) l, packet_parts) refl)

pub packet-full : (tag f : Bytes) (fs : List Bytes) → is_empty (packet tag (f ∷ fs)) ≡ false
unfolding packet
packet-full tag f fs = rw (fields-join f fs) (full-append tag pipe (join (f ∷ fs)))

module _ {O : Type 0} (on : Notice → GameState → O → O) where
  process_packet-packet :
      (tag f : Bytes) (fs : List Bytes) (c : Client O)
      → split_at pipe tag ≡ none
      → process_packet on (packet tag (f ∷ fs)) c ≡ dispatch_packet on tag (join (f ∷ fs)) c
  unfolding process_packet
  process_packet-packet tag f fs c e =
      rw (packet-full tag f fs, process_packet)
        (ap (λ (p : Bytes × Bytes). dispatch_packet on p.0 p.1 c)
          (packet_parts-packet tag f fs (split_at-none-Lacks pipe tag e)))

  pub process_packet-game_init :
      (f : Bytes) (fs : List Bytes) (c : Client O)
      → process_packet on (packet pkt_game_init (f ∷ fs)) c ≡ handle_game_init on (join (f ∷ fs)) c
  unfolding dispatch_packet default_handlers run_handler bytes_eq text split_at Assoc.lookup
      Assoc.insert
  process_packet-game_init f fs c = process_packet-packet pkt_game_init f fs c refl

  pub process_packet-turn_update :
      (f : Bytes) (fs : List Bytes) (c : Client O)
      → process_packet on (packet pkt_turn_update (f ∷ fs)) c
        ≡ handle_turn_update on (join (f ∷ fs)) c
  unfolding dispatch_packet default_handlers run_handler bytes_eq text split_at Assoc.lookup
      Assoc.insert
  process_packet-turn_update f fs c = process_packet-packet pkt_turn_update f fs c refl

  pub process_packet-hint_msg :
      (f : Bytes) (fs : List Bytes) (c : Client O)
      → process_packet on (packet pkt_hint_msg (f ∷ fs)) c ≡ handle_hint_msg on (join (f ∷ fs)) c
  unfolding dispatch_packet default_handlers run_handler bytes_eq text split_at Assoc.lookup
      Assoc.insert
  process_packet-hint_msg f fs c = process_packet-packet pkt_hint_msg f fs c refl

  pub process_packet-card_update :
      (f : Bytes) (fs : List Bytes) (c : Client O)
      → process_packet on (packet pkt_card_update (f ∷ fs)) c
        ≡ handle_card_update on (join (f ∷ fs)) c
  unfolding dispatch_packet default_handlers run_handler bytes_eq text split_at Assoc.lookup
      Assoc.insert
  process_packet-card_update f fs c = process_packet-packet pkt_card_update f fs c refl

  pub process_packet-chat :
      (f : Bytes) (fs : List Bytes) (c : Client O)
      → process_packet on (packet pkt_chat (f ∷ fs)) c ≡ handle_chat_msg on (join (f ∷ fs)) c
  unfolding dispatch_packet default_handlers run_handler bytes_eq text split_at Assoc.lookup
      Assoc.insert
  process_packet-chat f fs c = process_packet-packet pkt_chat f fs c refl

  pub process_packet-game_over :
      (f : Bytes) (fs : List Bytes) (c : Client O)
      → process_packet on (packet pkt_game_over (f ∷ fs)) c ≡ handle_game_over on (join (f ∷ fs)) c
  unfolding dispatch_packet default_handlers run_handler bytes_eq text split_at Assoc.lookup
      Assoc.insert
  process_packet-game_over f fs c = process_packet-packet pkt_game_over f fs c refl

  pub process_packet-all_cards :
      (f : Bytes) (fs : List Bytes) (c : Client O)
      → process_packet on (packet pkt_all_cards (f ∷ fs)) c ≡ handle_all_cards on (join (f ∷ fs)) c
  unfolding dispatch_packet default_handlers run_handler bytes_eq text split_at Assoc.lookup
      Assoc.insert
  process_packet-all_cards f fs c = process_packet-packet pkt_all_cards f fs c refl

  pub process_packet-answer_result :
      (f : Bytes) (fs : List Bytes) (c : Client O)
      → process_packet on (packet pkt_answer_result (f ∷ fs)) c ≡ c
  unfolding dispatch_packet default_handlers run_handler bytes_eq text split_at Assoc.lookup
      Assoc.insert
  process_packet-answer_result f fs c = process_packet-packet pkt_answer_result f fs c refl

  pub handle_turn_update-reads :
      (d : Bytes) (t p r b : ℤ) (c : Client O)
      → Number (parse_field d 0) t
      → Number (parse_field d 1) p
      → Number (parse_field d 2) r
      → Number (parse_field d 3) b
      → (handle_turn_update on d c).state
        ≡ record (c.state) { in_game_step = p; current_turn = t; red_score = r; blue_score = b }
  unfolding handle_turn_update score_update
  handle_turn_update-reads d t p r b c nt np nr nb =
      rw
        (
          nt.full, nr.full, nb.full, np.reads, nt.reads, nr.reads, nb.reads, handle_turn_update,
          score_update,
        )
        (update_score_state on r b
            (set_turn on t (with_state c (record (c.state) { in_game_step = p })))
          ∙ ap (λ (s : GameState). record s { red_score = r; blue_score = b })
              (set_turn_state on t (with_state c (record (c.state) { in_game_step = p }))))

  pub handle_hint_msg-reads :
      (d : Bytes) (n : ℤ) (c : Client O)
      → is_empty (parse_field d 1) ≡ false
      → Number (parse_field d 2) n
      → (handle_hint_msg on d c).state
        ≡ record (c.state) { hint_word = parse_field d 1; hint_number = n; remaining_tries = n }
  unfolding handle_hint_msg hint_given
  handle_hint_msg-reads d n c full count =
      rw (full, count.full, count.reads, handle_hint_msg, hint_given)
        (ap (λ (s : GameState). record s { remaining_tries = n })
          (set_hint_state on (parse_field d 1) n c))

  pub handle_card_update-reads :
      (d : Bytes) (i : ℕ) (used tries : ℤ) (k : ClientCard) (c : Client O)
      → Number (parse_field d 0) (pos i)
      → Number (parse_field d 1) used
      → Number (parse_field d 2) tries
      → get_elem? c.state.cards i ≡ some k
      → (handle_card_update on d c).state ≡ record (c.state) {
        cards = set c.state.cards i (record k { is_revealed = true });
        remaining_tries = tries;
      }
  unfolding handle_card_update tries_update
  handle_card_update-reads d i used tries k c ni nu nt e =
      rw (ni.full, ni.reads, nu.full, nu.reads, nt.full, nt.reads, handle_card_update, tries_update)
        (ap (λ (s : GameState). record s { remaining_tries = tries })
          (reveal_card_state on i k c e))

  pub handle_game_over-reads :
      (d : Bytes) (w : ℤ) (c : Client O)
      → Number (parse_field d 0) w
      → (handle_game_over on d c).state ≡ record (c.state) {
        messages = c.state.messages ++ winner_note w ∷ [];
        current_phase = result;
      }
  unfolding handle_game_over
  handle_game_over-reads d w c nw =
      rw (nw.full, nw.reads, handle_game_over)
        (on_game_over_state on (add_message on (winner_note w) c)
          ∙ ap (λ (s : GameState). record s { current_phase = result })
              (add_message_state on (winner_note w) c))
