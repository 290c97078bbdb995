-- ===== src/Client/Packets/Glued.antt =====
-- Two messages of the server in one receive: IOCPClient::ProcessReceivedData passes on what a receive
-- brings, and PacketHandler::ProcessPacket takes it for one packet.
use codenames_cpp_vibecoding.Prelude.{
  ℕ, ◌≤◌, ◌≡◌, refl, ◌∙◌, sym, ap, false, List, [], ◌∷◌, ◌++◌, none, pos,
}
use mathlib.Core.List.{append_assoc, append-nil}
use codenames_cpp_vibecoding.Text.{
  Bytes, text, pipe, is_empty, split_at, to_string_ℕ, to_string, max_int, is_digit,
}
use codenames_cpp_vibecoding.Text.Fields.{Lacks, split_at-none-Lacks}
use codenames_cpp_vibecoding.Text.Numbers.{to_string_ℕ-Number}
use codenames_cpp_vibecoding.Text.Glued.{glued-Number}
use codenames_cpp_vibecoding.Protocol.{packet, fields, pkt_turn_update, pkt_hint_msg}
use codenames_cpp_vibecoding.Game.{Game, team_num, phase_num}
use codenames_cpp_vibecoding.Game.Broadcast.{turn_update_message}
use codenames_cpp_vibecoding.Game.Play.{hint_message}
use codenames_cpp_vibecoding.Client.{GameState, Client, Notice}
use codenames_cpp_vibecoding.Client.Fields.Reading.{join, AllLack, parse_field_at}
use codenames_cpp_vibecoding.Client.Packets.Dispatch.{process_packet}
use codenames_cpp_vibecoding.Client.Packets.Messages.{
  process_packet-turn_update, process_packet-hint_msg, handle_turn_update-reads,
  handle_hint_msg-reads,
}
use codenames_cpp_vibecoding.Client.Packets.Updates.{
  team_num-Number, phase_num-Number, parse_field-Number, turn_update-shown, hint-shown,
}

-- The tag of the second message joins the last field of the first.
fields-append :
    (fs : List Bytes) (f tag : Bytes) (gs : List Bytes)
    → fields (fs ++ f ∷ []) ++ packet tag gs ≡ fields (fs ++ (f ++ tag) ∷ gs)
unfolding fields packet
fields-append [] f tag gs =
    ap (λ s. pipe ∷ s) (rw append-nil (sym (append_assoc f tag (fields gs))))
fields-append (g ∷ fs) f tag gs =
    ap (λ s. pipe ∷ s)
      (append_assoc g (fields (fs ++ f ∷ [])) (packet tag gs)
        ∙ ap (λ s. g ++ s) (fields-append fs f tag gs))

packet-append :
    (first : Bytes) (fs : List Bytes) (f tag : Bytes) (gs : List Bytes)
    → packet first (fs ++ f ∷ []) ++ packet tag gs ≡ packet first (fs ++ (f ++ tag) ∷ gs)
unfolding packet
packet-append first fs f tag gs =
    append_assoc first (fields (fs ++ f ∷ [])) (packet tag gs)
    ∙ ap (λ s. first ++ s) (fields-append fs f tag gs)

turn_update_clean : Lacks pipe pkt_turn_update
unfolding split_at text
turn_update_clean = split_at-none-Lacks pipe pkt_turn_update split
  where
    split : split_at pipe pkt_turn_update ≡ none
    split = refl

module _ {O : Type 0} (on : Notice → GameState → O → O) where
  -- If a TURN_UPDATE and another packet, whose tag does not begin with a digit and which has a field,
  -- arrive in one receive, the client's state becomes what the TURN_UPDATE alone would make of
  -- it, whatever the other packet says. The scores are `int`s; the tag and the fields have no
  -- delimiter.
  pub turn_update_swallows :
      (g : Game) (k : ℕ) (tag f : Bytes) (fs : List Bytes) (c : Client O)
      → g.red_score ≤ max_int
      → g.blue_score ≤ max_int
      → is_digit k ≡ false
      → AllLack ((k ∷ tag) ∷ f ∷ fs)
      → (process_packet on (turn_update_message g ++ packet (k ∷ tag) (f ∷ fs)) c).state
        ≡ (process_packet on (turn_update_message g) c).state
  unfolding turn_update_message
  turn_update_swallows g k tag f fs c hr hb hk l =
      let team = to_string_ℕ (team_num g.current_turn) in
      let phase = to_string_ℕ (phase_num g.current_phase) in
      let r = to_string_ℕ g.red_score in
      let b = to_string_ℕ g.blue_score ++ k ∷ tag in
      let all = team ∷ phase ∷ r ∷ b ∷ f ∷ fs in
      let nt = team_num-Number g.current_turn in
      let np = phase_num-Number g.current_phase in
      let nr = to_string_ℕ-Number g.red_score hr in
      let nb = glued-Number g.blue_score k tag hb hk l.0 in
      let clean : AllLack all = (nt.clean, (np.clean, (nr.clean, (nb.clean, l.1)))) in
      ap (λ (m : Bytes). (process_packet on m c).state) (glue g)
      ∙ ap (λ (d : Client O). d.state)
          (process_packet-turn_update on team (phase ∷ r ∷ b ∷ f ∷ fs) c)
      ∙ handle_turn_update-reads on (join all) _ _ _ _ c
          (parse_field-Number all 0 team _ refl clean nt)
          (parse_field-Number all 1 phase _ refl clean np)
          (parse_field-Number all 2 r _ refl clean nr) (parse_field-Number all 3 b _ refl clean nb)
      ∙ sym (turn_update-shown on g c hr hb)
    where
      glue :
          (h : Game)
          → turn_update_message h ++ packet (k ∷ tag) (f ∷ fs)
            ≡ packet pkt_turn_update (
                to_string_ℕ (team_num h.current_turn)
                ∷ to_string_ℕ (phase_num h.current_phase)
                ∷ to_string_ℕ h.red_score
                ∷ (to_string_ℕ h.blue_score ++ k ∷ tag)
                ∷ f
                ∷ fs)
      glue h =
          packet-append pkt_turn_update
            (to_string_ℕ (team_num h.current_turn)
              ∷ to_string_ℕ (phase_num h.current_phase)
              ∷ to_string_ℕ h.red_score
              ∷ [])
            (to_string_ℕ h.blue_score) (k ∷ tag) (f ∷ fs)

  -- ProcessHint sends HINT and then TURN_UPDATE. If both arrive in one receive, the client's state
  -- becomes what HINT alone would make of it: the client stays in the hint phase. The word is not
  -- empty and has no delimiter, and the number and the scores are `int`s that are not negative.
  pub hint_swallows_turn_update :
      (g h : Game) (word : Bytes) (n : ℕ) (c : Client O)
      → is_empty word ≡ false
      → Lacks pipe word
      → n ≤ max_int
      → h.red_score ≤ max_int
      → h.blue_score ≤ max_int
      → ((process_packet on (hint_message g word (pos n) ++ turn_update_message h) c).state
          ≡ (process_packet on (hint_message g word (pos n)) c).state)
        × ((process_packet on
              (hint_message g word (pos n) ++ turn_update_message h)
              c).state.in_game_step
            ≡ c.state.in_game_step)
  unfolding hint_message turn_update_message text to_string
  hint_swallows_turn_update g h word n c full lacks hn hr hb =
      let team = to_string_ℕ (team_num g.current_turn) in
      let number = to_string_ℕ n ++ pkt_turn_update in
      let turn = to_string_ℕ (team_num h.current_turn) in
      let phase = to_string_ℕ (phase_num h.current_phase) in
      let r = to_string_ℕ h.red_score in
      let b = to_string_ℕ h.blue_score in
      let all = team ∷ word ∷ number ∷ turn ∷ phase ∷ r ∷ b ∷ [] in
      let nn = glued-Number n b'T' (text "URN_UPDATE") hn refl turn_update_clean in
      let clean : AllLack all = (
        (team_num-Number g.current_turn).clean,
        (
          lacks,
          (
            nn.clean,
            (
              (team_num-Number h.current_turn).clean,
              (
                (phase_num-Number h.current_phase).clean,
                (
                  (to_string_ℕ-Number h.red_score hr).clean,
                  ((to_string_ℕ-Number h.blue_score hb).clean, tt),
                ),
              ),
            ),
          ),
        ),
      ) in
      let at = parse_field_at all 1 word refl clean in
      let reads : (process_packet on (hint_message g word (pos n) ++ turn_update_message h) c).state
          ≡ record (c.state) { hint_word = word; hint_number = pos n; remaining_tries = pos n } =
        ap (λ (m : Bytes). (process_packet on m c).state)
          (packet-append pkt_hint_msg (team ∷ word ∷ []) (to_string_ℕ n) pkt_turn_update
            (turn ∷ phase ∷ r ∷ b ∷ []))
        ∙ ap (λ (d : Client O). d.state)
            (process_packet-hint_msg on team (word ∷ number ∷ turn ∷ phase ∷ r ∷ b ∷ []) c)
        ∙ handle_hint_msg-reads on (join all) (pos n) c (ap is_empty at ∙ full)
            (parse_field-Number all 2 number (pos n) refl clean nn)
        ∙ ap
            (λ (w : Bytes). record (c.state) {
              hint_word = w;
              hint_number = pos n;
              remaining_tries = pos n;
            })
            at in
      (
        reads ∙ sym (hint-shown on g word (pos n) c full lacks hn),
        ap (λ (s : GameState). s.in_game_step) reads,
      )
