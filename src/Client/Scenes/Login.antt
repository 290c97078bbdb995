-- ===== src/Client/Scenes/Login.antt =====
-- What the client makes of a refused login.
use codenames_cpp_vibecoding.Prelude.{
  ◌≡◌, refl, ◌∙◌, ap, Bool, true, false, ◌&&◌, List, [], ◌∷◌, Option, none, some, All, Bool-cases,
  inl, inr,
}
use codenames_cpp_vibecoding.Text.{Bytes, text, is_empty, bytes_eq, split_at}
use codenames_cpp_vibecoding.Assoc
use codenames_cpp_vibecoding.Protocol.{
  pkt_login_no_account, pkt_login_wrong_pw, pkt_login_suspended, pkt_login_error,
}
use codenames_cpp_vibecoding.Client.{GameState, Client, Notice, show_status}
use codenames_cpp_vibecoding.Client.Packets.{handle_login_failure}
use codenames_cpp_vibecoding.Client.Packets.Dispatch.{
  packet_parts, dispatch_packet, process_packet, default_handlers, run_handler,
}
use codenames_cpp_vibecoding.Client.Scenes.{is_in, wait_round, wait_for_entry}

-- Nothing arrives, or the server refuses.
pub data IsRefusal : Option Bytes → Type 0 where
  silent : IsRefusal none
  refused_no_account : IsRefusal (some pkt_login_no_account)
  refused_wrong_password : IsRefusal (some pkt_login_wrong_pw)
  refused_suspended : IsRefusal (some pkt_login_suspended)
  refused_error : IsRefusal (some pkt_login_error)

-- There is a round.
abbrev pub has_round : List (Option Bytes) → Bool
has_round [] = false
has_round (p ∷ ps) = true

and_false : (b : Bool) → (b && false) ≡ false
and_false true = refl
and_false false = refl

module _ {O : Type 0} (on : Notice → GameState → O → O) where
  wait_round-refusal :
      (p : Option Bytes) (c : Client O) → IsRefusal p → (wait_round on p c).state ≡ c.state
  unfolding wait_round process_packet packet_parts dispatch_packet default_handlers run_handler
      split_at bytes_eq text is_empty handle_login_failure show_status Assoc.lookup Assoc.insert
  wait_round-refusal p c silent = refl
  wait_round-refusal p c refused_no_account = refl
  wait_round-refusal p c refused_wrong_password = refl
  wait_round-refusal p c refused_suspended = refl
  wait_round-refusal p c refused_error = refl

  -- If all that arrives is refusals, the login, and likewise the signup, is taken for successful
  -- exactly if there is a round in which to look and the client has a token or is in the lobby phase
  -- already; the game state stays as it was.
  pub wait_for_entry-refusals :
      (rounds : List (Option Bytes)) (c : Client O)
      → All IsRefusal rounds
      → ((wait_for_entry on rounds c).1 ≡ (has_round rounds && is_in c.state))
        × ((wait_for_entry on rounds c).0.state ≡ c.state)
  unfolding wait_for_entry
  wait_for_entry-refusals [] c a = (refl, refl)
  wait_for_entry-refusals (p ∷ ps) c a =
      let same = wait_round-refusal p c a.0 in
      elim (Bool-cases (is_in c.state)) [
        | inl e ↦ rw (ap is_in same ∙ e, e, wait_for_entry) (refl, same)
        | inr e ↦
            let (result, state) = wait_for_entry-refusals ps (wait_round on p c) a.1 in
            rw (ap is_in same ∙ e, e, wait_for_entry)
              (result ∙ rw (ap is_in same ∙ e) (and_false (has_round ps)), state ∙ same)
      ]
