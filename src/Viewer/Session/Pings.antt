-- ===== src/Viewer/Session/Pings.antt =====
-- The fuel of the loop of `ping`: enough for the messages that are to come.
use simple_remote.Base.{
  ℕ, zero, suc, ◌+◌, ◌<◌, ◌≡◌, ◌≢◌, ◌⊎◌, none, ok, err, length, arith, inl, inr,
}
use simple_remote.Protocol.{Instant, ping}
use simple_remote.Protocol.Control.{Control}
use simple_remote.Protocol.Signaling.{ServerToViewer, ViewerToServer}
use simple_remote.Transport.World.{World}
use simple_remote.Transport.Channel.{Channel, inbox}
use simple_remote.Transport.Channel.Queue.{next-shorter}
use simple_remote.Viewer.Connect.{
  control_of, next_control, ConnectError, security, host_left, timeout, transport,
}
use simple_remote.Viewer.Session.{ping_loop}
use simple_remote.Platform.{Platform}

abbrev ViewerWorld : Type 0
ViewerWorld = World ServerToViewer ViewerToServer

module _ (p : Platform) where
  -- A control message has been taken from those to come.
  next_control-shorter :
      (deadline : Instant) (ch : Channel) (w : ViewerWorld)
      → let ((r, ch'), w') = next_control p deadline ping ch w in
        ((m : Control) × (r ≡ ok m) × (length (inbox ch w) ≡ length (inbox ch' w') + 1))
        ⊎ ((e : ConnectError) × (r ≡ err e))
  unfolding next_control control_of
  next_control-shorter deadline ch w = elim (next-shorter p.control_codec deadline ch w) [
    | inl (inl (m, e), shorter) ↦ inl (m, ground (arith, e), shorter)
    | inl (inr e, shorter) ↦ inr (security "malformed control", ground (arith, e))
    | inr (inl e) ↦ inr (host_left, ground (arith, e))
    | inr (inr (inl e)) ↦ inr (timeout ping, ground (arith, e))
    | inr (inr (inr (x, e))) ↦ inr (transport x, ground (arith, e))
  ]

  -- The fuel of the loop of `ping` is enough when it is for one round more than there are messages to
  -- come.
  ping_ends :
      (fuel seq : ℕ) (start deadline : Instant) (ch : Channel) (w : ViewerWorld)
      → length (inbox ch w) < fuel
      → ping_loop p fuel seq start deadline ch w ≢ none
  unfolding ping_loop
  ping_ends zero seq start deadline ch w h = absurd (omega arith)
  ping_ends (suc fuel) seq start deadline ch w h =
      let ((r, ch'), w1) = next_control p deadline ping ch w in
      elim (next_control-shorter deadline ch w) [
        | inr (x, e) ↦ ground (arith, e)
        | inl (m, e, shorter) ↦
            ground (arith, e, ping_ends fuel seq start deadline ch' w1 (omega (arith, shorter)))
      ]
