-- ===== src/Client/Screen/Ending.antt =====
-- How GAME_OVER ends the game screen.
use codenames_cpp_vibecoding.Prelude.{
  ℕ, ◌≡◌, refl, ◌∙◌, ap, Bool, true, false, List, [], ◌∷◌, Bool-cases, inl, inr,
}
use codenames_cpp_vibecoding.Text.{Bytes, is_empty, to_string_ℕ}
use codenames_cpp_vibecoding.Protocol.{pkt_game_over}
use codenames_cpp_vibecoding.Game.{Team, team_num}
use codenames_cpp_vibecoding.Game.Turns.{game_over_message}
use codenames_cpp_vibecoding.Client.{result, same_phase, client_phase_num, GameState, Client}
use codenames_cpp_vibecoding.Client.Fields.Reading.{join}
use codenames_cpp_vibecoding.Client.Packets.Dispatch.{process_packet}
use codenames_cpp_vibecoding.Client.Packets.Messages.{
  packet-full, process_packet-game_over, handle_game_over-reads,
}
use codenames_cpp_vibecoding.Client.Packets.Updates.{team_num-Number, parse_field-Number}
use codenames_cpp_vibecoding.Client.Screen.{InputEvent, Screen, screen_on, drain_packet_queue}
use codenames_cpp_vibecoding.Client.Screen.Show.{show_round, show_rounds}

-- Show has returned, in the result phase.
record Returns (r : Client Screen × Bool) : Type 0 where
  pub done : r.1 ≡ true
  pub over : r.0.state.current_phase ≡ result

same_result : same_phase result result ≡ true
unfolding client_phase_num
same_result = refl

is_over :
    (c : Client Screen)
    → c.state.current_phase ≡ result
    → same_phase c.state.current_phase result ≡ true
is_over c h = ap (λ q. same_phase q result) h ∙ same_result

over_stops :
    (p : ℕ) (rest : List (List Bytes × List InputEvent)) (c : Client Screen)
    → c.state.current_phase ≡ result
    → (show_rounds p rest c ≡ show_rounds p [] c) × Returns (show_rounds p rest c)
unfolding show_rounds
over_stops p [] c h = elim (Bool-cases (c.objects p).game_running) [
  | inl e ↦ rw (e, is_over c h) (refl, record { done = refl; over = h })
  | inr e ↦ rw e (refl, record { done = refl; over = h })
]
over_stops p ((packets, events) ∷ rest) c h = elim (Bool-cases (c.objects p).game_running) [
  | inl e ↦ rw (e, is_over c h) (refl, record { done = refl; over = h })
  | inr e ↦ rw e (refl, record { done = refl; over = h })
]

full : (winner : Team) → is_empty (game_over_message winner) ≡ false
unfolding game_over_message
full winner = packet-full pkt_game_over (to_string_ℕ (team_num winner)) []

game_over_phase :
    (winner : Team) (c : Client Screen)
    → (process_packet screen_on (game_over_message winner) c).state.current_phase ≡ result
unfolding game_over_message
game_over_phase winner c =
    let name = to_string_ℕ (team_num winner) in
    ap (λ (d : Client Screen). d.state.current_phase) (process_packet-game_over screen_on name [] c)
    ∙ ap (λ (s : GameState). s.current_phase)
        (handle_game_over-reads screen_on (join (name ∷ [])) _ c (
          parse_field-Number (name ∷ []) 0 name _ refl ((team_num-Number winner).clean, tt)
            (team_num-Number winner)))

-- Show returns once the server's GAME_OVER has arrived: if its loop is in a round, and the packets of
-- the round are this one alone, then the round is the last, whatever would come later; Show has
-- returned and the client is in the result phase.
pub game_over_ends_show :
    (p : ℕ) (winner : Team) (events : List InputEvent) (rest : List (List Bytes × List InputEvent))
    (c : Client Screen)
    → (c.objects p).game_running ≡ true
    → same_phase c.state.current_phase result ≡ false
    → let shown = show_rounds p ((game_over_message winner ∷ [], events) ∷ rest) c in
      (shown ≡ show_rounds p ((game_over_message winner ∷ [], events) ∷ []) c)
      × (shown.1 ≡ true)
      × (shown.0.state.current_phase ≡ result)
unfolding show_rounds show_round drain_packet_queue
game_over_ends_show p winner events rest c running on_going =
    let after = show_round p (game_over_message winner ∷ []) events c in
    let phase : after.state.current_phase ≡ result = rw (full winner) (game_over_phase winner c) in
    let (alone, left) = over_stops p rest after phase in
    let here : Returns (show_rounds p rest after) = left in
    rw (running, on_going) (alone, here.done, here.over)
