-- ===== src/Client/Mirror/Replay.antt =====
-- What a client makes of a broadcast.
use codenames_cpp_vibecoding.Prelude.{
  ℕ, ◌==◌, ◌≡◌, refl, ◌∙◌, sym, subst, ap, arith, true, List, [], ◌∷◌, ◌++◌, Option, none, some,
  Bool-cases, inl, inr, ltb, length,
}
use codenames_cpp_vibecoding.Text.{Bytes, is_empty}
use codenames_cpp_vibecoding.Session.{World, Effect, sent, saved, post_send, session_buffer_size}
use codenames_cpp_vibecoding.Session.Sending.{Fits}
use codenames_cpp_vibecoding.Game.{Room, GamePlayer}
use codenames_cpp_vibecoding.Game.Broadcast.{deliver, broadcast_each, broadcast_to_all}
use codenames_cpp_vibecoding.Game.Broadcast.Delivery.{
  mail, recipients, broadcast_log, broadcast_game, broadcast_sessions,
}
use codenames_cpp_vibecoding.Client.{GameState, Client, Notice}
use codenames_cpp_vibecoding.Client.Packets.Dispatch.{process_packet}
use codenames_cpp_vibecoding.Client.Mirror.{is_among, Listens, replay, Hears, view}

pub broadcast-Listens :
    (me : ℕ) (m : Bytes) (r : Room) → Listens me r → Listens me (broadcast_to_all m r)
broadcast-Listens me m r l = rw (broadcast_game m r, broadcast_sessions m r) l

module _ {O : Type 0} (on : Notice → GameState → O → O) (me : ℕ) where
  pub replay-append :
      (es fs : List Effect) (c : Client O)
      → replay on me (es ++ fs) c ≡ replay on me fs (replay on me es c)
  unfolding replay
  replay-append [] fs c = refl
  replay-append (sent p m ∷ es) fs c = replay-append es fs _
  replay-append (saved name outcome ∷ es) fs c = replay-append es fs c

  module _ (P : GameState → Type 0) (m : Bytes) (keeps : Hears on P P m) where
    replay-mail_keeps :
        (ps : List ℕ) (c : Client O) → P c.state → P (replay on me (mail m ps) c).state
    unfolding replay
    replay-mail_keeps [] c h = h
    replay-mail_keeps (p ∷ ps) c h = elim (Bool-cases (p == me)) [
      | inl e ↦ rw (e, replay) (replay-mail_keeps ps (process_packet on m c) (keeps c h))
      | inr e ↦ rw (e, replay) (replay-mail_keeps ps c h)
    ]

    pub post_send_keeps :
        (p : ℕ) (c : Client O) (w : World) → P (view on me c w) → P (view on me c (post_send p m w))
    unfolding post_send
    post_send_keeps p c w h = elim (Bool-cases (is_empty m)) [
      | inl e ↦ rw (e, post_send) h
      | inr e ↦ elim (Bool-cases (ltb session_buffer_size (length m))) [
        | inl e2 ↦ rw (e, e2, post_send) h
        | inr e2 ↦
            rw (e, e2, post_send)
              (subst (λ (d : Client O). P d.state) (sym (replay-append w.log (sent p m ∷ []) c))
                (replay-mail_keeps (p ∷ []) (replay on me w.log c) h))
      ]
    ]

    deliver_keeps :
        (o : Option ℕ) (c : Client O) (w : World)
        → P (view on me c w)
        → P (view on me c (deliver m o w))
    unfolding deliver
    deliver_keeps none c w h = h
    deliver_keeps (some p) c w h = elim (Bool-cases (w.sessions p).is_closed) [
      | inl e ↦ rw e h
      | inr e ↦ rw e (post_send_keeps p c w h)
    ]

    broadcast_each_keeps :
        (ps : List GamePlayer) (c : Client O) (w : World)
        → P (view on me c w)
        → P (view on me c (broadcast_each m ps w))
    unfolding broadcast_each
    broadcast_each_keeps [] c w h = h
    broadcast_each_keeps (p ∷ ps) c w h =
        broadcast_each_keeps ps c (deliver m p.session w) (deliver_keeps p.session c w h)

    -- Sent or not, a message that keeps a property of the client.
    pub broadcast_keeps :
        (c : Client O) (r : Room)
        → P (view on me c r.world)
        → P (view on me c (broadcast_to_all m r).world)
    unfolding broadcast_to_all
    broadcast_keeps c r h = elim (Bool-cases (is_empty m)) [
      | inl e ↦ rw (e, broadcast_to_all) h
      | inr e ↦ rw (e, broadcast_to_all) (broadcast_each_keeps r.game.players c r.world h)
    ]

  module _ (P Q : GameState → Type 0) (m : Bytes) (reaches : Hears on P Q m)
      (keeps : Hears on Q Q m) where
    replay-mail_reaches :
        (ps : List ℕ) (c : Client O)
        → is_among me ps ≡ true
        → P c.state
        → Q (replay on me (mail m ps) c).state
    unfolding replay
    replay-mail_reaches [] c a h = cc
    replay-mail_reaches (p ∷ ps) c a h = elim (Bool-cases (p == me)) [
      | inl e ↦
          rw (e, replay) (replay-mail_keeps Q m keeps ps (process_packet on m c) (reaches c h))
      | inr e ↦ rw (e, replay) (replay-mail_reaches ps c (ground (arith, a)) h)
    ]

    -- A message that fits the buffer reaches each open slot, and what it brings about lasts.
    pub broadcast_reaches :
        (c : Client O) (r : Room)
        → Fits m
        → Listens me r
        → P (view on me c r.world)
        → Q (view on me c (broadcast_to_all m r).world)
    broadcast_reaches c r f l h =
        let mails = mail m (recipients r.world.sessions r.game.players) in
        let later =
          ap (λ (es : List Effect). replay on me es c) (broadcast_log m r f)
          ∙ replay-append r.world.log mails c in
        subst (λ (d : Client O). Q d.state) (sym later)
          (replay-mail_reaches (recipients r.world.sessions r.game.players)
            (replay on me r.world.log c) l h)
