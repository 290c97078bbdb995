-- ===== src/Client/Screen/Show.antt =====
-- GameScreen::Show of CodeNamesClient/src/gui/GameScreen.cpp, without the drawing. The screen is the
-- observer at an address among the client's; a round of the loop is given the packets that wait and
-- the input events that the input thread has queued.
use codenames_cpp_vibecoding.Prelude.{ℕ, ◌==◌, Bool, true, false, List, [], ◌∷◌, map, if◌then◌else◌}
use codenames_cpp_vibecoding.Text.{Bytes}
use codenames_cpp_vibecoding.Client.{result, same_phase, Client}
use codenames_cpp_vibecoding.Client.Screen.{
  InputEvent, input_event, Screen, update_input_mode, process_input_events, drain_packet_queue,
}

abbrev pub at_screen : ℕ → (Screen → Screen) → Client Screen → Client Screen
at_screen p f c = record c { objects = λ q. if q == p then f (c.objects p) else c.objects q }

-- InputThreadFunc: the keys that _getwch gives, as events. The flag that it also sets is set again when
-- Show processes the event.
unfoldable pub input_thread : List ℕ → List InputEvent
input_thread keys = map input_event keys

-- What Show does before its loop.
unfoldable pub begin_show : ℕ → Client Screen → Client Screen
begin_show p c =
    at_screen p
      (λ s. update_input_mode c.state (record s { game_running = true; needs_redraw = true })) c

-- The flags behind the redrawing.
unfoldable pub redraw : Screen → Screen
redraw s =
    if s.needs_redraw
    then record s { needs_redraw = false; echo_needs_update = false }
    else if s.echo_needs_update
    then record s { echo_needs_update = false }
    else s

-- A round in which the game is not over.
unfoldable pub show_round : ℕ → List Bytes → List InputEvent → Client Screen → Client Screen
unfolding redraw
show_round p packets events c =
    let drained = drain_packet_queue packets c in
    at_screen p (λ s. redraw (process_input_events drained.state events s)) drained

-- The loop: `true` where Show has returned.
unfoldable pub show_rounds :
    ℕ → List (List Bytes × List InputEvent) → Client Screen → Client Screen × Bool
unfolding show_round
show_rounds p [] c =
    if (c.objects p).game_running
    then (if same_phase c.state.current_phase result
        then (at_screen p (λ s. record s { game_running = false }) c, true)
        else (c, false))
    else (c, true)
show_rounds p ((packets, events) ∷ rounds) c =
    let rest = show_rounds p rounds (show_round p packets events c) in
    if (c.objects p).game_running
    then (if same_phase c.state.current_phase result
        then (at_screen p (λ s. record s { game_running = false }) c, true)
        else rest)
    else (c, true)

unfoldable pub show : ℕ → List (List Bytes × List InputEvent) → Client Screen → Client Screen × Bool
unfolding show_rounds begin_show
show p rounds c = show_rounds p rounds (begin_show p c)
