-- ===== src/Game/Play/Guards.antt =====
-- Who may give a hint and who may answer: the Boolean guards decide these conditions.
use codenames_cpp_vibecoding.Prelude.{
  ℕ, ◌<◌, ◌≡◌, ◌↔◌, refl, arith, true, false, some, get_elem?, ℤ, pos, negsuc, is_nonpos,
  Option-cases, inl, inr,
}
use codenames_cpp_vibecoding.Session.{World}
use codenames_cpp_vibecoding.Game.{
  Game, GamePlayer, agent, spymaster, hint_phase, guess_phase, Team, red, blue, system, max_players,
  same_team,
}
use codenames_cpp_vibecoding.Game.Roster.{slot}
use codenames_cpp_vibecoding.Game.Play.{is_valid_player_for_hint, is_valid_player_for_answer}

-- The index names a slot that holds a session, open or closed.
abbrev pub Seated : ℤ → Game → GamePlayer → ℕ → Type 0
Seated i g p s =
    (n : ℕ) × (i ≡ pos n)
    × (n < max_players)
    × (get_elem? g.players n ≡ some p)
    × (p.session ≡ some s)

pub record MayHint (i : ℤ) (g : Game) (w : World) : Type 0 where
  pub player : GamePlayer
  pub session : ℕ
  pub seated : Seated i g player session
  pub running : g.game_over ≡ false
  pub connected : (w.sessions session).is_closed ≡ false
  pub to_move : player.team ≡ g.current_turn
  pub phase : g.current_phase ≡ hint_phase
  pub leads : player.role ≡ spymaster

pub record MayAnswer (i : ℤ) (g : Game) (w : World) : Type 0 where
  pub player : GamePlayer
  pub session : ℕ
  pub seated : Seated i g player session
  pub running : g.game_over ≡ false
  pub connected : (w.sessions session).is_closed ≡ false
  pub to_move : player.team ≡ g.current_turn
  pub phase : g.current_phase ≡ guess_phase
  pub guesses : player.role ≡ agent
  pub tries : is_nonpos g.remaining_tries ≡ false

pub same_team_sound : (t u : Team) → same_team t u ≡ true → t ≡ u
same_team_sound red u h = ground arith
same_team_sound _ u h = ground arith

pub same_team_refl : (t : Team) → same_team t t ≡ true
same_team_refl red = refl
same_team_refl blue = refl
same_team_refl system = refl

pub slot-some :
    (g : Game) (i : ℤ) {p : GamePlayer}
    → slot g i ≡ some p
    → (n : ℕ) × (i ≡ pos n) × (n < max_players) × (get_elem? g.players n ≡ some p)
unfolding slot
slot-some g (negsuc i) e = cc
slot-some g (pos n) e = (n, refl, ground arith, ground arith)

pub slot_seated :
    (g : Game) (n : ℕ) {p : GamePlayer}
    → n < max_players
    → get_elem? g.players n ≡ some p
    → slot g (pos n) ≡ some p
unfolding slot
slot_seated g n h e = ground arith

pub valid_hint :
    (i : ℤ) (g : Game) (w : World) → is_valid_player_for_hint i g w ≡ true → MayHint i g w
unfolding is_valid_player_for_hint
valid_hint i g w h = elim (Option-cases (slot g i)) [
  | inl e ↦ absurd (ground arith)
  | inr (p, e) ↦ elim (Option-cases p.session) [
    | inl f ↦ absurd (ground arith)
    | inr (s, f) ↦
        let (n, at, below, here) = slot-some g i e in
        record {
          player = p;
          session = s;
          seated = (n, at, below, here, f);
          running = ground arith;
          connected = ground arith;
          to_move = same_team_sound p.team g.current_turn (ground arith);
          phase = ground arith;
          leads = ground arith;
        }
  ]
]

pub valid_answer :
    (i : ℤ) (g : Game) (w : World) → is_valid_player_for_answer i g w ≡ true → MayAnswer i g w
unfolding is_valid_player_for_answer
valid_answer i g w h = elim (Option-cases (slot g i)) [
  | inl e ↦ absurd (ground arith)
  | inr (p, e) ↦ elim (Option-cases p.session) [
    | inl f ↦ absurd (ground arith)
    | inr (s, f) ↦
        let (n, at, below, here) = slot-some g i e in
        record {
          player = p;
          session = s;
          seated = (n, at, below, here, f);
          running = ground arith;
          connected = ground arith;
          to_move = same_team_sound p.team g.current_turn (ground arith);
          phase = ground arith;
          guesses = ground arith;
          tries = ground arith;
        }
  ]
]

hint_valid : (i : ℤ) (g : Game) (w : World) → MayHint i g w → is_valid_player_for_hint i g w ≡ true
unfolding is_valid_player_for_hint
hint_valid i g w m =
    let (n, at, below, here, f) = m.seated in
    ground (arith, slot_seated g n below here, same_team_refl g.current_turn)

answer_valid :
    (i : ℤ) (g : Game) (w : World) → MayAnswer i g w → is_valid_player_for_answer i g w ≡ true
unfolding is_valid_player_for_answer
answer_valid i g w m =
    let (n, at, below, here, f) = m.seated in
    ground (arith, slot_seated g n below here, same_team_refl g.current_turn)

-- The guard of ProcessHint holds exactly for an index that names a slot with an open session of the
-- spymaster of the team to move, in the hint phase of a game that is not over.
pub is_valid_player_for_hint_iff :
    (i : ℤ) (g : Game) (w : World) → (is_valid_player_for_hint i g w ≡ true) ↔ MayHint i g w
is_valid_player_for_hint_iff i g w = (valid_hint i g w, hint_valid i g w)

-- The guard of ProcessAnswer holds exactly for an index that names a slot with an open session of
-- an agent of the team to move, in the guess phase of a game that is not over, with a try left.
pub is_valid_player_for_answer_iff :
    (i : ℤ) (g : Game) (w : World) → (is_valid_player_for_answer i g w ≡ true) ↔ MayAnswer i g w
is_valid_player_for_answer_iff i g w = (valid_answer i g w, answer_valid i g w)
