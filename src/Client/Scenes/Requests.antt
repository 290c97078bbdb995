-- ===== src/Client/Scenes/Requests.antt =====
-- What the login and the signup screens send, from the keys to the server's reading of the packet.
use codenames_cpp_vibecoding.Prelude.{ℕ, ◌≡◌, refl, arith, true, List, [], ◌∷◌, ◌++◌, Option}
use codenames_cpp_vibecoding.Text.{Bytes, text, pipe}
use codenames_cpp_vibecoding.Text.Fields.{Lacks}
use codenames_cpp_vibecoding.Protocol.{packet, pkt_login}
use codenames_cpp_vibecoding.Protocol.Sizes.{length-packet}
use codenames_cpp_vibecoding.SessionManager.Auth.{login, parse_auth}
use codenames_cpp_vibecoding.SessionManager.Auth.Reading.{parse_auth-packet}
use codenames_cpp_vibecoding.Client.{GameState, Notice}
use codenames_cpp_vibecoding.Client.Network.{Network, send_data}
use codenames_cpp_vibecoding.Client.Network.Limits.{FitsBuffer, send_data_sends}
use codenames_cpp_vibecoding.Client.Forms.{LoginScreen, success, show_login, new_login_screen}
use codenames_cpp_vibecoding.Client.Forms.Fields.{IsField, IsFilled, show_login-IsFilled}
use codenames_cpp_vibecoding.Client.Scenes.{Gui, login_scene_loop}

pub empty-IsField : IsField []
empty-IsField = record { printable = tt; short = omega arith }

login_packet-FitsBuffer :
    (user pw : Bytes) → IsField user → IsField pw → FitsBuffer (packet pkt_login (user ∷ pw ∷ []))
unfolding text
login_packet-FitsBuffer user pw u p =
    let size = length-packet pkt_login (user ∷ pw ∷ []) in
    (omega (arith, size), omega (arith, size, u.short, p.short))

module _ {O : Type 0} (on : Notice → GameState → O → O) where
  login_scene_loop_sends :
      (s : LoginScreen) (rounds : List (Option Bytes)) (g : Gui O)
      → s.login_result ≡ success
      → g.connected ≡ true
      → (login_scene_loop on s rounds g).sent
        ≡ g.sent ++ packet pkt_login (s.username ∷ s.password ∷ []) ∷ []
  unfolding login_scene_loop
  login_scene_loop_sends s rounds g r c = rw (r, c, login_scene_loop) refl

  -- If the keys on a new login screen end it with success, and the user name holds no delimiter, then
  -- the login scene of a GUI with a client sends one packet; SendData of a connected client passes
  -- it on behind what was sent before; and the server reads it as the login with the user name and
  -- the password that were typed.
  pub typed_login_arrives :
      (keys : List (ℕ × ℕ)) (rounds : List (Option Bytes)) (g : Gui O) (n : Network)
      → (show_login keys new_login_screen).login_result ≡ success
      → Lacks pipe (show_login keys new_login_screen).username
      → g.connected ≡ true
      → n.connected ≡ true
      → let s = show_login keys new_login_screen in
        let p = packet pkt_login (s.username ∷ s.password ∷ []) in
        ((login_scene_loop on s rounds g).sent ≡ g.sent ++ p ∷ [])
        × (send_data true p n ≡ (record n { wire = n.wire ++ p ∷ [] }, true))
        × (parse_auth p ≡ login s.username s.password)
  unfolding new_login_screen
  typed_login_arrives keys rounds g n r l gc nc =
      let s = show_login keys new_login_screen in
      let f : IsFilled s = show_login-IsFilled keys new_login_screen empty-IsField empty-IsField in
      (
        login_scene_loop_sends s rounds g r gc,
        send_data_sends _ n nc (login_packet-FitsBuffer s.username s.password f.name f.secret),
        (parse_auth-packet s.username [] s.password l tt).2,
      )
