-- ===== src/Client/Mirror/Answers.antt =====
-- ProcessAnswer and the packets of a player: the client stays up to date.
use codenames_cpp_vibecoding.Prelude.{
  ℕ, zero, suc, ◌≤◌, ◌≡◌, refl, ◌∙◌, sym, ap, arith, true, false, not, ◌||◌, List, some, ℤ, pos,
  negsuc, Bool-cases, inl, inr, get_elem?, get_elem?-set_same, set_same, set, length, pred_ℤ,
  is_nonpos, ltb,
}
use codenames_cpp_vibecoding.Text.{max_int}
use codenames_cpp_vibecoding.Text.Decimal.{IsInt}
use codenames_cpp_vibecoding.Game.{
  Game, GameCard, Room, red, blue, CardType, red_card, blue_card, neutral, assassin, with_game,
  same_team, max_cards,
}
use codenames_cpp_vibecoding.Game.Broadcast.{send_card_update, card_update_message}
use codenames_cpp_vibecoding.Game.Broadcast.Delivery.{send_card_update_game}
use codenames_cpp_vibecoding.Game.Turns.{check_winner, next_team}
use codenames_cpp_vibecoding.Game.Cards.{Verdict, verdict}
use codenames_cpp_vibecoding.Game.Play.{is_assassin, is_system, conclude}
use codenames_cpp_vibecoding.Client.{GameState, Client, Notice}
use codenames_cpp_vibecoding.Client.Fields.Reading.{get_elem?-lt}
use codenames_cpp_vibecoding.Client.Packets.Cards.{shown}
use codenames_cpp_vibecoding.Client.Mirror.{Mirrors, Listens, Synced}
use codenames_cpp_vibecoding.Client.Mirror.Replay.{broadcast_reaches}
use codenames_cpp_vibecoding.Client.Mirror.Messages.{card_update-Hears}
use codenames_cpp_vibecoding.Client.Mirror.Sizes.{card_update-Fits}
use codenames_cpp_vibecoding.Client.Mirror.Turns.{switch_turn-Synced, end_game-Synced}

-- What a verdict on the card leaves alone, and how far the counters go.
pub record Revealed (i : ℕ) (c : GameCard) (g h : Game) : Type 0 where
  pub same : h ≡ record h {
    cards = set g.cards i (record c { is_used = true });
    current_turn = g.current_turn;
    current_phase = g.current_phase;
    game_over = g.game_over;
  }
  pub seats : h.players ≡ g.players
  pub reds : h.red_score ≤ suc g.red_score
  pub blues : h.blue_score ≤ suc g.blue_score
  pub tries : IsInt h.remaining_tries

pred_ℤ-IsInt : (n : ℤ) → IsInt n → is_nonpos n ≡ false → IsInt (pred_ℤ n)
pred_ℤ-IsInt (pos zero) h p = cc
pred_ℤ-IsInt (pos (suc n)) h p = omega (arith, h)
pred_ℤ-IsInt (negsuc n) h p = cc

pub reveal-Revealed :
    (i : ℕ) (c : GameCard) (t : CardType) (g : Game)
    → IsInt g.remaining_tries
    → is_nonpos g.remaining_tries ≡ false
    → Revealed i c g
        (verdict t (record g { cards = set g.cards i (record c { is_used = true }) })).game
unfolding verdict
reveal-Revealed i c red_card g h p = elim (Bool-cases (same_team g.current_turn red)) [
  | inl e ↦
      rw (e, verdict)
        (record {
          same = refl;
          seats = refl;
          reds = omega arith;
          blues = omega arith;
          tries = pred_ℤ-IsInt g.remaining_tries h p;
        })
  | inr e ↦
      rw (e, verdict)
        (record { same = refl; seats = refl; reds = omega arith; blues = omega arith; tries = h })
]
reveal-Revealed i c blue_card g h p = elim (Bool-cases (same_team g.current_turn blue)) [
  | inl e ↦
      rw (e, verdict)
        (record {
          same = refl;
          seats = refl;
          reds = omega arith;
          blues = omega arith;
          tries = pred_ℤ-IsInt g.remaining_tries h p;
        })
  | inr e ↦
      rw (e, verdict)
        (record { same = refl; seats = refl; reds = omega arith; blues = omega arith; tries = h })
]
reveal-Revealed i c neutral g h p = record {
  same = refl;
  seats = refl;
  reds = omega arith;
  blues = omega arith;
  tries = h;
}
reveal-Revealed i c assassin g h p = record {
  same = refl;
  seats = refl;
  reds = omega arith;
  blues = omega arith;
  tries = h;
}

module _ {O : Type 0} (on : Notice → GameState → O → O) (me : ℕ) (c : Client O) where
  pub conclude-Synced :
      (t : CardType) (v : Verdict) (r : Room)
      → r.game.red_score ≤ max_int
      → r.game.blue_score ≤ max_int
      → Listens me r
      → Synced on me c r
      → Synced on me c (conclude t v r)
  unfolding conclude
  conclude-Synced t v r hr hb l h =
      elim (Bool-cases (not (is_system (check_winner r.game)) || v.game_ends)) [
        | inl e ↦ elim (Bool-cases (is_assassin t)) [
          | inl a ↦
              rw (e, a, conclude) (end_game-Synced on me c (next_team r.game.current_turn) r l h)
          | inr a ↦ rw (e, a, conclude) (end_game-Synced on me c (check_winner r.game) r l h)
        ]
        | inr e ↦ elim (Bool-cases v.turn_ends) [
          | inl a ↦ rw (e, a, conclude) (switch_turn-Synced on me c r hr hb l h)
          | inr a ↦ rw (e, a, conclude) h
        ]
      ]

  -- What is left of the revealed card and the game around it.
  pub show_card-Synced :
      (i : ℕ) (card : GameCard) (h : Game) (r : Room)
      → get_elem? r.game.cards i ≡ some card
      → length r.game.cards ≡ max_cards
      → Revealed i card r.game h
      → Listens me r
      → Synced on me c r
      → Synced on me c (send_card_update (pos i) (with_game r h))
  unfolding send_card_update shown
  show_card-Synced i card h r at size v l m =
      let used : GameCard = record card { is_used = true } in
      let below = get_elem?-lt r.game.cards i at in
      let small : i ≤ max_int = omega arith in
      let inside : ltb i max_cards ≡ true = ground arith in
      let cards = ap (λ (g : Game). g.cards) v.same in
      let here =
        ap (λ (ks : List GameCard). get_elem? ks i) cards
        ∙ get_elem?-set_same r.game.cards i used at in
      rw (send_card_update_game (pos i) (with_game r h)) (
        rw (inside, here, send_card_update)
          (broadcast_reaches on me (Mirrors r.game) (Mirrors h)
            (card_update_message i used h.remaining_tries)
            (card_update-Hears on r.game i card used h.remaining_tries h at refl v.same small
              v.tries)
            (card_update-Hears on h i used used h.remaining_tries h here refl
              (ap (λ (ks : List GameCard). record h { cards = ks })
                (sym (set_same h.cards i used here)))
              small v.tries)
            c (with_game r h) (card_update-Fits i used h.remaining_tries small v.tries)
            (rw v.seats l) m))
