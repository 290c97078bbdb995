-- ===== src/Client/Packets/Effects.antt =====
-- What the operations of the client's game state leave there, whatever the observers do.
use codenames_cpp_vibecoding.Prelude.{
  ℕ, ==_iff, ◌≡◌, refl, ap, arith, Bool, true, ◌&&◌, List, [], ◌∷◌, ◌++◌, some, ℤ, pos, negsuc,
  Bool-cases, inl, inr, get_elem?, set,
}
use codenames_cpp_vibecoding.Text.{Bytes, bytes_eq}
use codenames_cpp_vibecoding.Text.Fields.{bytes_eq_sound}
use codenames_cpp_vibecoding.Client.{
  ClientPhase, login, signup, lobby, matching, playing, result, error_phase, client_phase_num,
  same_phase, ClientCard, GameMessage, GameState, Client, Notice, eq_ℤ, notify, set_phase,
  update_score, add_message, reveal_card, set_hint, set_turn, on_game_over, update_cards,
  update_players, Player,
}

pub eq_ℤ_sound : (a b : ℤ) → eq_ℤ a b ≡ true → a ≡ b
eq_ℤ_sound (pos a) (pos b) h = ap pos ((==_iff a b).0 h)
eq_ℤ_sound (negsuc a) (negsuc b) h = ap negsuc ((==_iff a b).0 h)
eq_ℤ_sound (pos a) (negsuc b) h = cc
eq_ℤ_sound (negsuc a) (pos b) h = cc

same_phase_sound : (p q : ClientPhase) → same_phase p q ≡ true → p ≡ q
unfolding client_phase_num
same_phase_sound login q h = ground arith
same_phase_sound signup q h = ground arith
same_phase_sound lobby q h = ground arith
same_phase_sound matching q h = ground arith
same_phase_sound playing q h = ground arith
same_phase_sound result q h = ground arith
same_phase_sound error_phase q h = ground arith

both : (a b : Bool) → (a && b) ≡ true → (a ≡ true) × (b ≡ true)
both a b h = ground arith

module _ {O : Type 0} (on : Notice → GameState → O → O) where
  pub set_phase_state :
      (p : ClientPhase) (c : Client O)
      → (set_phase on p c).state ≡ record (c.state) { current_phase = p }
  unfolding set_phase notify
  set_phase_state p c = elim (Bool-cases (same_phase c.state.current_phase p)) [
    | inl e ↦
        rw (e, set_phase)
          (ap (λ (q : ClientPhase). record (c.state) { current_phase = q })
            (same_phase_sound c.state.current_phase p e))
    | inr e ↦ rw (e, set_phase) refl
  ]

  pub update_score_state :
      (r b : ℤ) (c : Client O)
      → (update_score on r b c).state ≡ record (c.state) { red_score = r; blue_score = b }
  unfolding update_score notify
  update_score_state r b c =
      elim (Bool-cases (eq_ℤ c.state.red_score r && eq_ℤ c.state.blue_score b)) [
        | inl e ↦
            let (er, eb) = both _ _ e in
            let red = eq_ℤ_sound c.state.red_score r er in
            let blue = eq_ℤ_sound c.state.blue_score b eb in
            rw (e, update_score) (λ i. record (c.state) { red_score = red i; blue_score = blue i })
        | inr e ↦ rw (e, update_score) refl
      ]

  pub set_hint_state :
      (word : Bytes) (n : ℤ) (c : Client O)
      → (set_hint on word n c).state ≡ record (c.state) { hint_word = word; hint_number = n }
  unfolding set_hint notify
  set_hint_state word n c =
      elim (Bool-cases (bytes_eq c.state.hint_word word && eq_ℤ c.state.hint_number n)) [
        | inl e ↦
            let (ew, en) = both _ _ e in
            let words = bytes_eq_sound c.state.hint_word word ew in
            let numbers = eq_ℤ_sound c.state.hint_number n en in
            rw (e, set_hint)
              (λ i. record (c.state) { hint_word = words i; hint_number = numbers i })
        | inr e ↦ rw (e, set_hint) refl
      ]

  pub set_turn_state :
      (t : ℤ) (c : Client O) → (set_turn on t c).state ≡ record (c.state) { current_turn = t }
  unfolding set_turn notify
  set_turn_state t c = refl

  pub reveal_card_state :
      (i : ℕ) (k : ClientCard) (c : Client O)
      → get_elem? c.state.cards i ≡ some k
      → (reveal_card on (pos i) c).state
        ≡ record (c.state) { cards = set c.state.cards i (record k { is_revealed = true }) }
  unfolding reveal_card notify
  reveal_card_state i k c e = rw (e, reveal_card) refl

  pub add_message_state :
      (m : GameMessage) (c : Client O)
      → (add_message on m c).state ≡ record (c.state) { messages = c.state.messages ++ m ∷ [] }
  unfolding add_message notify
  add_message_state m c = refl

  pub on_game_over_state :
      (c : Client O) → (on_game_over on c).state ≡ record (c.state) { current_phase = result }
  unfolding on_game_over notify
  on_game_over_state c = refl

  pub update_cards_state :
      (cs : List ClientCard) (c : Client O)
      → (update_cards on cs c).state ≡ record (c.state) { cards = cs }
  unfolding update_cards notify
  update_cards_state cs c = refl

  pub update_players_state :
      (ps : List Player) (c : Client O)
      → (update_players on ps c).state ≡ record (c.state) { players = ps }
  unfolding update_players notify
  update_players_state ps c = refl
