-- ===== src/Host/Session/Pings/Ends.antt =====
-- The fuel of the loop of `serve_pings`: enough for the messages that are to come.
use simple_remote.Base.{
  ℕ, zero, suc, ◌+◌, ◌<◌, ◌≡◌, ◌≢◌, none, some, ok, length, arith, inl, inr, ap, ◌++◌, Option-cases,
  Result-cases,
}
use simple_remote.Base.Text.{Bytes}
use simple_remote.Protocol.{Instant, Duration}
use simple_remote.Protocol.Control.{Control}
use simple_remote.Protocol.Serde.{Codec}
use simple_remote.Transport.World.{peer_send, now}
use simple_remote.Transport.Channel.{Channel, Next, data_of, inbox, next, send}
use simple_remote.Transport.Channel.Queue.{next-shorter}
use simple_remote.Host.Session.Approval.{HostWorld}
use simple_remote.Host.Session.Pings.{serve_loop, serve_pings}

module _ (codec : Codec Control Bytes) where
  send-polls : (m : Control) (w : HostWorld) → (send codec m w).1.polls ≡ w.polls
  unfolding send peer_send
  send-polls m w = ground arith

  serve_ends_from :
      (fuel : ℕ) (deadline : Instant) (ch : Channel) (w : HostWorld)
      → length (inbox ch w) < fuel
      → serve_loop codec fuel deadline ch w ≢ none
  unfolding serve_loop
  serve_ends_from zero deadline ch w h = absurd (omega arith)
  serve_ends_from (suc fuel) deadline ch w h =
      let ((r, ch'), w1) = next codec deadline ch w in
      elim (next-shorter codec deadline ch w) [
        | inl (inr e, shorter) ↦ ground (arith, e)
        | inr (inl e) ↦ ground (arith, e)
        | inr (inr (inl e)) ↦ ground (arith, e)
        | inr (inr (inr (x, e))) ↦ ground (arith, e)
        | inl (inl (m, e), shorter) ↦ by_message m e shorter (serve_ends_from fuel deadline)
      ]
    where
      by_message :
          (m : Control)
          → (next codec deadline ch w).0.0 ≡ ok (Next.msg m)
          → length (inbox ch w)
            ≡ length (inbox (next codec deadline ch w).0.1 (next codec deadline ch w).1) + 1
          → ((ch' : Channel) (w' : HostWorld)
              → length (inbox ch' w') < fuel
              → serve_loop codec fuel deadline ch' w' ≢ none)
          → serve_loop codec (suc fuel) deadline ch w ≢ none
      by_message (Control.ping seq) e shorter again =
          let ((r, ch'), w1) = next codec deadline ch w in
          let (sent, w2) = send codec (Control.pong seq) w1 in
          let same : length (inbox ch' w2) ≡ length (inbox ch' w1) =
            ap (λ ps. length (ch'.pending ++ data_of ps)) (send-polls (Control.pong seq) w1) in
          elim (Result-cases sent) [
            | inl (x, bad) ↦ ground (arith, e, bad)
            | inr (x, good) ↦ ground (arith, e, good, again ch' w2 (omega (arith, shorter, same)))
          ]
      by_message (Control.pong seq) e shorter again =
          let ((r, ch'), w1) = next codec deadline ch w in
          ground (arith, e, again ch' w1 (omega (arith, shorter)))
      by_message (Control.hello x) e shorter again =
          let ((r, ch'), w1) = next codec deadline ch w in
          ground (arith, e, again ch' w1 (omega (arith, shorter)))
      by_message (Control.decision x) e shorter again =
          let ((r, ch'), w1) = next codec deadline ch w in
          ground (arith, e, again ch' w1 (omega (arith, shorter)))

  -- The fuel that `serve_pings` gives its loop is enough for the messages that are to come.
  serve_ends :
      (for_at_most : Duration) (ch : Channel) (w : HostWorld)
      → let (t, w1) = now w in
        serve_loop codec (length (inbox ch w1) + 1) (t + for_at_most) ch w1
        ≡ some (serve_pings codec for_at_most ch w)
  unfolding serve_pings
  serve_ends for_at_most ch w =
      let (t, w1) = now w in
      elim (Option-cases (serve_loop codec (length (inbox ch w1) + 1) (t + for_at_most) ch w1)) [
        | inl out ↦
            absurd
              (serve_ends_from (length (inbox ch w1) + 1) (t + for_at_most) ch w1 (omega arith) out)
        | inr (r, e) ↦ ground (arith, e)
      ]
