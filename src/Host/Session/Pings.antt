-- ===== src/Host/Session/Pings.antt =====
-- apps/host-agent/src/session.rs: `HostSession::serve_pings`.
pub mod Ends
use simple_remote.Base.{ℕ, zero, suc, ◌+◌, Option, none, some, List, Result, ok, err, length}
use simple_remote.Base.Text.{Bytes}
use simple_remote.Protocol.{Duration, Instant}
use simple_remote.Protocol.Control.{Control}
use simple_remote.Protocol.Serde.{Codec}
use simple_remote.Transport.World.{now}
use simple_remote.Transport.Channel.{Channel, Next, inbox, next, send, close}
use simple_remote.Host.Session.Types.{HostIo, HostError, transport}
use simple_remote.Host.Session.Approval.{HostWorld}

module _ (codec : Codec Control Bytes) where
  -- The loop; `none` when the fuel runs out.
  unfoldable pub serve_loop :
      ℕ
      → Instant
      → Channel
      → HostWorld
      → Option ((Result (Unit {0}) HostError × Channel) × HostWorld)
  serve_loop zero deadline ch w = none
  serve_loop (suc fuel) deadline ch w =
      let ((r, ch'), w1) = next codec deadline ch w in
      elim r [
        | ok (Next.msg (Control.ping seq)) ↦
            let (sent, w2) = send codec (Control.pong seq) w1 in
            elim sent [
              | err e ↦ some ((err (transport e), ch'), w2)
              | ok _ ↦ serve_loop fuel deadline ch' w2
            ]
        | ok (Next.msg _) ↦ serve_loop fuel deadline ch' w1
        | ok Next.malformed ↦ let (closed, w2) = close ch' w1 in some ((ok tt, closed), w2)
        | ok Next.closed ↦ some ((ok tt, ch'), w1)
        | ok Next.timed_out ↦ some ((ok tt, ch'), w1)
        | err e ↦ some ((err (transport e), ch'), w1)
      ]

  -- Each round but the last takes a message out of the channel.
  unfoldable pub serve_pings : Duration → Channel → HostIo (Result (Unit {0}) HostError × Channel)
  serve_pings for_at_most ch w =
      let (t, w1) = now w in
      elim (serve_loop (length (inbox ch w1) + 1) (t + for_at_most) ch w1) [
        | none ↦ ((ok tt, ch), w1)
        | some r ↦ r
      ]
