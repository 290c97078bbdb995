-- ===== src/Client/Packets/Updates.antt =====
-- The messages of a game as the client reads them: TURN_UPDATE, HINT, CARD_UPDATE and GAME_OVER of
-- the server, processed by PacketHandler::ProcessPacket.
use codenames_cpp_vibecoding.Prelude.{
  ℕ, ◌≤◌, ◌≡◌, refl, ◌∙◌, sym, subst, ap, arith, Bool, true, false, List, [], ◌∷◌, some, ℤ, pos,
  get_elem?, set,
}
use codenames_cpp_vibecoding.Text.{Bytes, pipe, is_empty, to_string_ℕ, to_string, max_int}
use codenames_cpp_vibecoding.Text.Fields.{Lacks}
use codenames_cpp_vibecoding.Text.Decimal.{IsInt}
use codenames_cpp_vibecoding.Text.Numbers.{Number, to_string-Number, to_string_ℕ-Number}
use codenames_cpp_vibecoding.Game.{
  Game, GameCard, Team, red, blue, system, GamePhase, hint_phase, guess_phase, team_num, phase_num,
}
use codenames_cpp_vibecoding.Game.Broadcast.{turn_update_message, card_update_message, flag}
use codenames_cpp_vibecoding.Game.Play.{hint_message}
use codenames_cpp_vibecoding.Client.{ClientCard, GameState, Client, Notice}
use codenames_cpp_vibecoding.Client.Fields.{parse_field}
use codenames_cpp_vibecoding.Client.Fields.Reading.{join, AllLack, parse_field_at}
use codenames_cpp_vibecoding.Client.Packets.Dispatch.{process_packet}
use codenames_cpp_vibecoding.Client.Packets.Messages.{
  process_packet-turn_update, process_packet-hint_msg, process_packet-card_update,
  handle_turn_update-reads, handle_hint_msg-reads, handle_card_update-reads,
}

pub team_num-Number : (t : Team) → Number (to_string_ℕ (team_num t)) (pos (team_num t))
unfolding team_num
team_num-Number red = to_string_ℕ-Number 0 (omega arith)
team_num-Number blue = to_string_ℕ-Number 1 (omega arith)
team_num-Number system = to_string_ℕ-Number 2 (omega arith)

pub phase_num-Number : (p : GamePhase) → Number (to_string_ℕ (phase_num p)) (pos (phase_num p))
unfolding phase_num
phase_num-Number hint_phase = to_string_ℕ-Number 0 (omega arith)
phase_num-Number guess_phase = to_string_ℕ-Number 1 (omega arith)

pub flag-Number : (b : Bool) → Number (to_string_ℕ (flag b)) (pos (flag b))
unfolding flag
flag-Number true = to_string_ℕ-Number 1 (omega arith)
flag-Number false = to_string_ℕ-Number 0 (omega arith)

-- A number among the fields is a number for ParseField.
pub parse_field-Number :
    (fs : List Bytes) (n : ℕ) (f : Bytes) (z : ℤ)
    → get_elem? fs n ≡ some f
    → AllLack fs
    → Number f z
    → Number (parse_field (join fs) n) z
parse_field-Number fs n f z e l number =
    subst (λ (g : Bytes). Number g z) (sym (parse_field_at fs n f e l)) number

module _ {O : Type 0} (on : Notice → GameState → O → O) where
  -- TURN_UPDATE brings the turn, the phase and both scores of the server to the client and changes
  -- nothing else there, if the scores are no larger than an `int` holds.
  pub turn_update-shown :
      (g : Game) (c : Client O)
      → g.red_score ≤ max_int
      → g.blue_score ≤ max_int
      → (process_packet on (turn_update_message g) c).state ≡ record (c.state) {
        in_game_step = pos (phase_num g.current_phase);
        current_turn = pos (team_num g.current_turn);
        red_score = pos g.red_score;
        blue_score = pos g.blue_score;
      }
  unfolding turn_update_message
  turn_update-shown g c hr hb =
      let team = to_string_ℕ (team_num g.current_turn) in
      let phase = to_string_ℕ (phase_num g.current_phase) in
      let r = to_string_ℕ g.red_score in
      let b = to_string_ℕ g.blue_score in
      let fs = team ∷ phase ∷ r ∷ b ∷ [] in
      let nt = team_num-Number g.current_turn in
      let np = phase_num-Number g.current_phase in
      let nr = to_string_ℕ-Number g.red_score hr in
      let nb = to_string_ℕ-Number g.blue_score hb in
      let clean : AllLack fs = (nt.clean, (np.clean, (nr.clean, (nb.clean, tt)))) in
      ap (λ (d : Client O). d.state) (process_packet-turn_update on team (phase ∷ r ∷ b ∷ []) c)
      ∙ handle_turn_update-reads on (join fs) _ _ _ _ c
          (parse_field-Number fs 0 team _ refl clean nt)
          (parse_field-Number fs 1 phase _ refl clean np)
          (parse_field-Number fs 2 r _ refl clean nr) (parse_field-Number fs 3 b _ refl clean nb)

  -- HINT brings the word and the number to the client, the number also as the remaining tries, and
  -- changes nothing else there, if the word is not empty and has no delimiter and the number is an
  -- `int`.
  pub hint-shown :
      (g : Game) (word : Bytes) (n : ℤ) (c : Client O)
      → is_empty word ≡ false
      → Lacks pipe word
      → IsInt n
      → (process_packet on (hint_message g word n) c).state
        ≡ record (c.state) { hint_word = word; hint_number = n; remaining_tries = n }
  unfolding hint_message
  hint-shown g word n c full lacks h =
      let team = to_string_ℕ (team_num g.current_turn) in
      let fs = team ∷ word ∷ to_string n ∷ [] in
      let number = to_string-Number n h in
      let clean : AllLack fs =
        ((team_num-Number g.current_turn).clean, (lacks, (number.clean, tt))) in
      let at = parse_field_at fs 1 word refl clean in
      ap (λ (d : Client O). d.state) (process_packet-hint_msg on team (word ∷ to_string n ∷ []) c)
      ∙ handle_hint_msg-reads on (join fs) n c (ap is_empty at ∙ full)
          (parse_field-Number fs 2 (to_string n) n refl clean number)
      ∙ ap (λ (w : Bytes). record (c.state) { hint_word = w; hint_number = n; remaining_tries = n })
          at

  -- CARD_UPDATE turns the card with its number over at the client, whose word and type stay, and
  -- brings the remaining tries, if the client has a card with this number and the numbers are `int`s.
  pub card_update-shown :
      (i : ℕ) (card : GameCard) (tries : ℤ) (k : ClientCard) (c : Client O)
      → i ≤ max_int
      → IsInt tries
      → get_elem? c.state.cards i ≡ some k
      → (process_packet on (card_update_message i card tries) c).state ≡ record (c.state) {
        cards = set c.state.cards i (record k { is_revealed = true });
        remaining_tries = tries;
      }
  unfolding card_update_message
  card_update-shown i card tries k c hi ht e =
      let index = to_string_ℕ i in
      let used = to_string_ℕ (flag card.is_used) in
      let fs = index ∷ used ∷ to_string tries ∷ [] in
      let ni = to_string_ℕ-Number i hi in
      let nu = flag-Number card.is_used in
      let nt = to_string-Number tries ht in
      let clean : AllLack fs = (ni.clean, (nu.clean, (nt.clean, tt))) in
      ap (λ (d : Client O). d.state)
        (process_packet-card_update on index (used ∷ to_string tries ∷ []) c)
      ∙ handle_card_update-reads on (join fs) i (pos (flag card.is_used)) tries k c
          (parse_field-Number fs 0 index _ refl clean ni)
          (parse_field-Number fs 1 used _ refl clean nu)
          (parse_field-Number fs 2 (to_string tries) _ refl clean nt) e
