-- ===== src/Client/Mirror/Messages.antt =====
-- What each message of a game makes of a client that mirrors the game.
use codenames_cpp_vibecoding.Prelude.{
  ℕ, ◌≤◌, ◌≡◌, refl, ◌∙◌, sym, subst, ap, true, List, [], ◌∷◌, map, Option-cases, some, ℤ, pos,
  get_elem?, get_elem?-map, map-set, set, Bool-cases, inl, inr, ◌&&◌, not,
}
use codenames_cpp_vibecoding.Text.{Bytes, is_empty, max_int, stoi, to_string_ℕ}
use codenames_cpp_vibecoding.Text.Decimal.{IsInt}
use codenames_cpp_vibecoding.Protocol.{packet, pkt_chat, pkt_hint_msg, pkt_answer_result}
use codenames_cpp_vibecoding.Game.{Game, GameCard, Team, team_num}
use codenames_cpp_vibecoding.Game.Broadcast.{turn_update_message, card_update_message}
use codenames_cpp_vibecoding.Game.Turns.{game_over_message}
use codenames_cpp_vibecoding.Client.{
  ClientCard, GameMessage, GameState, Client, Notice, notify, add_message,
}
use codenames_cpp_vibecoding.Client.Fields.{parse_field}
use codenames_cpp_vibecoding.Client.Fields.Reading.{join}
use codenames_cpp_vibecoding.Client.Packets.{handle_chat_msg, handle_hint_msg, hint_given}
use codenames_cpp_vibecoding.Client.Packets.Cards.{shown}
use codenames_cpp_vibecoding.Client.Packets.Effects.{set_hint_state}
use codenames_cpp_vibecoding.Client.Packets.Messages.{
  process_packet-chat, process_packet-hint_msg, process_packet-answer_result,
  process_packet-game_over, handle_game_over-reads,
}
use codenames_cpp_vibecoding.Client.Packets.Updates.{
  turn_update-shown, card_update-shown, team_num-Number, parse_field-Number,
}
use codenames_cpp_vibecoding.Client.Mirror.{Mirrors, Hears}

module _ {O : Type 0} (on : Notice → GameState → O → O) (g : Game) where
  add_message-Mirrors :
      (m : GameMessage) (c : Client O) → Mirrors g c.state → Mirrors g (add_message on m c).state
  unfolding add_message notify
  add_message-Mirrors m c h = record {
    cards = h.cards;
    turn = h.turn;
    step = h.step;
    over = h.over;
  }

  handle_chat_msg-Mirrors :
      (d : Bytes) (c : Client O) → Mirrors g c.state → Mirrors g (handle_chat_msg on d c).state
  unfolding handle_chat_msg
  handle_chat_msg-Mirrors d c h =
      elim (Bool-cases (not (is_empty (parse_field d 2)) && not (is_empty (parse_field d 3)))) [
        | inr e ↦ rw (e, handle_chat_msg) h
        | inl e ↦ elim (Bool-cases (is_empty (parse_field d 0))) [
          | inl e2 ↦ rw (e, e2, handle_chat_msg) (add_message-Mirrors _ c h)
          | inr e2 ↦ elim (Option-cases (stoi (parse_field d 0))) [
            | inl e3 ↦ rw (e, e2, e3, handle_chat_msg) h
            | inr (t, e3) ↦ rw (e, e2, e3, handle_chat_msg) (add_message-Mirrors _ c h)
          ]
        ]
      ]

  -- Any chat message keeps it.
  pub chat-Hears :
      (f : Bytes) (fs : List Bytes) → Hears on (Mirrors g) (Mirrors g) (packet pkt_chat (f ∷ fs))
  chat-Hears f fs c h =
      subst (λ (d : Client O). Mirrors g d.state) (sym (process_packet-chat on f fs c))
        (handle_chat_msg-Mirrors (join (f ∷ fs)) c h)

  handle_hint_msg-Mirrors :
      (d : Bytes) (c : Client O) → Mirrors g c.state → Mirrors g (handle_hint_msg on d c).state
  unfolding handle_hint_msg hint_given
  handle_hint_msg-Mirrors d c h =
      elim (Bool-cases (not (is_empty (parse_field d 1)) && not (is_empty (parse_field d 2)))) [
        | inr e ↦ rw (e, handle_hint_msg) h
        | inl e ↦ elim (Option-cases (stoi (parse_field d 2))) [
          | inl e2 ↦ rw (e, e2, handle_hint_msg) h
          | inr (n, e2) ↦
              rw (e, e2, handle_hint_msg, hint_given)
                (subst (λ (s : GameState). Mirrors g (record s { remaining_tries = n }))
                  (sym (set_hint_state on (parse_field d 1) n c))
                  (record { cards = h.cards; turn = h.turn; step = h.step; over = h.over }))
        ]
      ]

  pub hint-Hears :
      (f : Bytes) (fs : List Bytes)
      → Hears on (Mirrors g) (Mirrors g) (packet pkt_hint_msg (f ∷ fs))
  hint-Hears f fs c h =
      subst (λ (d : Client O). Mirrors g d.state) (sym (process_packet-hint_msg on f fs c))
        (handle_hint_msg-Mirrors (join (f ∷ fs)) c h)

  pub answer_result-Hears :
      (f : Bytes) (fs : List Bytes)
      → Hears on (Mirrors g) (Mirrors g) (packet pkt_answer_result (f ∷ fs))
  answer_result-Hears f fs c h =
      subst (λ (d : Client O). Mirrors g d.state) (sym (process_packet-answer_result on f fs c)) h

  -- The turn and the phase may be new.
  pub turn_update-Hears :
      (next : Game)
      → next.cards ≡ g.cards
      → next.game_over ≡ g.game_over
      → next.red_score ≤ max_int
      → next.blue_score ≤ max_int
      → Hears on (Mirrors g) (Mirrors next) (turn_update_message next)
  turn_update-Hears next cards over hr hb c h =
      subst (Mirrors next) (sym (turn_update-shown on next c hr hb)) (record {
        cards = h.cards ∙ ap (map shown) (sym cards);
        turn = refl;
        step = refl;
        over = λ o. h.over (sym over ∙ o);
      })

  pub game_over-Hears :
      (winner : Team)
      → Hears on (Mirrors g) (Mirrors (record g { game_over = true })) (game_over_message winner)
  unfolding game_over_message
  game_over-Hears winner c h =
      let name = to_string_ℕ (team_num winner) in
      let number = team_num-Number winner in
      let read = parse_field-Number (name ∷ []) 0 name _ refl (number.clean, tt) number in
      subst (Mirrors (record g { game_over = true }))
        (sym (
          ap (λ (d : Client O). d.state) (process_packet-game_over on name [] c)
          ∙ handle_game_over-reads on name (pos (team_num winner)) c read))
        (record { cards = h.cards; turn = h.turn; step = h.step; over = λ o. refl })

  -- The card may have been turned over before.
  pub card_update-Hears :
      (i : ℕ) (card used : GameCard) (tries : ℤ) (next : Game)
      → get_elem? g.cards i ≡ some card
      → shown used ≡ record (shown card) { is_revealed = true }
      → next ≡ record next {
        cards = set g.cards i used;
        current_turn = g.current_turn;
        current_phase = g.current_phase;
        game_over = g.game_over;
      }
      → i ≤ max_int
      → IsInt tries
      → Hears on (Mirrors g) (Mirrors next) (card_update_message i used tries)
  card_update-Hears i card used tries next at same e hi ht c h =
      let here =
        ap (λ (ks : List ClientCard). get_elem? ks i) h.cards
        ∙ get_elem?-map shown g.cards i card at in
      subst (Mirrors next) (sym (card_update-shown on i used tries (shown card) c hi ht here)) (
        rw e (record {
          cards = cc (h.cards, same, map-set shown g.cards i used);
          turn = h.turn;
          step = h.step;
          over = h.over;
        }))
