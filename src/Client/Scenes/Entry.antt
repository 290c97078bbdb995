-- ===== src/Client/Scenes/Entry.antt =====
-- The first round of GUIManager::Run behind Connect: OnNetworkConnected has left a task that puts
-- the client into the lobby phase, and the login scene follows.
use codenames_cpp_vibecoding.Prelude.{
  ◌≡◌, refl, ap, ◌∙◌, Bool, true, false, ◌||◌, not, List, [], ◌∷◌, ◌++◌, Option, All,
}
use codenames_cpp_vibecoding.Text.{Bytes, is_empty}
use codenames_cpp_vibecoding.Protocol.{packet, pkt_login}
use codenames_cpp_vibecoding.Client.{
  lobby, same_phase, client_phase_num, GameState, Client, Notice, with_state,
}
use codenames_cpp_vibecoding.Client.Packets.Effects.{set_phase_state}
use codenames_cpp_vibecoding.Client.Network.{enter_lobby}
use codenames_cpp_vibecoding.Client.Forms.{LoginScreen, success, show_login}
use codenames_cpp_vibecoding.Client.Scenes.{
  login_scene, main_menu_scene, Gui, wait_for_entry, login_scene_loop,
}
use codenames_cpp_vibecoding.Client.Scenes.Login.{IsRefusal, has_round, wait_for_entry-refusals}
use codenames_cpp_vibecoding.Client.Scenes.Program.{
  Program, Input, run_gui, scene_loop, drain_queues, run_tasks, run_task, process_packets,
}

module _ {O : Type 0} (on : Notice → GameState → O → O) where
  or_true : (b : Bool) → (b || true) ≡ true
  or_true true = refl
  or_true false = refl

  -- The login scene in the lobby phase.
  login_in_lobby :
      (s : LoginScreen) (answers : List (Option Bytes)) (g : Gui O)
      → s.login_result ≡ success
      → g.connected ≡ true
      → same_phase g.client.state.current_phase lobby ≡ true
      → All IsRefusal answers
      → has_round answers ≡ true
      → ((login_scene_loop on s answers g).current_scene ≡ main_menu_scene)
        × ((login_scene_loop on s answers g).client.state.token ≡ g.client.state.token)
        × ((login_scene_loop on s answers g).sent
            ≡ g.sent ++ packet pkt_login (s.username ∷ s.password ∷ []) ∷ [])
  unfolding login_scene_loop
  login_in_lobby s answers g r c l all some_round =
      let named : Client O =
        with_state g.client (record (g.client.state) { username = s.username }) in
      let (entered, state) = wait_for_entry-refusals on answers named all in
      let goes_in : (wait_for_entry on answers named).1 ≡ true =
        entered ∙ rw (some_round, l) (or_true (not (is_empty g.client.state.token))) in
      rw (r, c, login_scene_loop, goes_in) (refl, ap (λ (t : GameState). t.token) state, refl)

  -- The first scene behind a connection: the only task is OnNetworkConnected's. If the keys end the
  -- login screen with success and there is a round to look for an answer, then, although the server
  -- is silent or refuses in every round, the main menu follows. The login packet has been sent, and
  -- the token is what it was.
  pub refused_login_enters :
      (i : Input O) (p : Program O)
      → p.gui.current_scene ≡ login_scene
      → p.gui.connected ≡ true
      → (show_login i.keys p.login_screen).login_result ≡ success
      → All IsRefusal i.answers
      → has_round i.answers ≡ true
      → let q = run_gui on ((enter_lobby ∷ [], [], i) ∷ []) p in
        let s = show_login i.keys p.login_screen in
        (q.gui.current_scene ≡ main_menu_scene)
        × (q.gui.client.state.token ≡ p.gui.client.state.token)
        × (q.gui.sent ≡ p.gui.sent ++ packet pkt_login (s.username ∷ s.password ∷ []) ∷ [])
  unfolding run_gui scene_loop drain_queues run_tasks run_task process_packets client_phase_num
      login_scene_loop
  refused_login_enters i p scene c r all some_round =
      let drained = drain_queues on (enter_lobby ∷ []) [] p in
      let lobbied = set_phase_state on lobby p.gui.client in
      let (to_menu, token, sends) =
        login_in_lobby (show_login i.keys p.login_screen) i.answers drained.gui r c
          (rw lobbied refl) all some_round in
      simp (scene, r) (to_menu, token ∙ rw lobbied refl, sends)
