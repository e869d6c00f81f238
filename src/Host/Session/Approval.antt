-- ===== src/Host/Session/Approval.antt =====
-- apps/host-agent/src/session.rs: `wait_approval` and `reject_decision`, the loops that poll the
-- channel while a person or the viewer is waited for.
pub mod Ends
pub mod Agreed
use simple_remote.Base.{
  ℕ, zero, suc, ◌+◌, ◌/◌, Bool, true, false, Option, none, some, Result, ok, err, length, leb, min,
  if◌then◌else◌,
}
use simple_remote.Base.Text.{Bytes, Str}
use simple_remote.Protocol.{Duration, Instant, from_millis}
use simple_remote.Protocol.Control.{Control, RejectReason, rejected}
use simple_remote.Protocol.Signaling.{ServerToHost, HostToServer}
use simple_remote.Protocol.Serde.{Codec}
use simple_remote.Transport.World.{World, Io, pure, now, ask, ◌>>=◌, ◌>>◌}
use simple_remote.Transport.Channel.{Channel, Next, inbox, next, send, close}
use simple_remote.Host.Session.Types.{
  HostIo, HostState, ServeOutcome, failed, AttemptFailure, malformed, transport,
}

abbrev pub approval_poll : Duration
approval_poll = from_millis 50

pub data Approval : Type 0 where
  granted denied no_response : Approval
  broken : AttemptFailure → Approval

abbrev pub HostWorld : Type 0
HostWorld = World ServerToHost HostToServer

module _ (codec : Codec Control Bytes) where
  -- The loop of `wait_approval`; `none` when the fuel runs out.
  unfoldable pub approval_loop :
      ℕ → Instant → Str → Str → Channel → HostWorld → Option ((Approval × Channel) × HostWorld)
  approval_loop zero deadline name fingerprint ch w = none
  approval_loop (suc fuel) deadline name fingerprint ch w =
      let (answer, w1) = ask name fingerprint w in
      elim answer [
        | some true ↦ some ((granted, ch), w1)
        | some false ↦ some ((denied, ch), w1)
        | none ↦
            let (t, w2) = now w1 in
            if leb deadline t
            then some ((no_response, ch), w2)
            else let ((r, ch'), w3) = next codec (min (t + approval_poll) deadline) ch w2 in
              elim r [
                | ok Next.timed_out ↦ approval_loop fuel deadline name fingerprint ch' w3
                | ok (Next.msg _) ↦ some ((broken malformed, ch'), w3)
                | ok Next.malformed ↦ some ((broken malformed, ch'), w3)
                | ok Next.closed ↦ some ((broken transport, ch'), w3)
                | err _ ↦ some ((broken transport, ch'), w3)
              ]
      ]

  -- A round that goes on takes 50 ms or reaches the deadline.
  unfoldable pub wait_approval : Str → Str → Duration → Channel → HostIo (Approval × Channel)
  wait_approval name fingerprint limit ch w =
      let (t, w1) = now w in
      elim (approval_loop (limit / approval_poll + 3) (t + limit) name fingerprint ch w1) [
        | none ↦ ((no_response, ch), w1)
        | some r ↦ r
      ]

  -- The loop of `reject_decision`, which reads until the viewer closes; `none` without fuel.
  unfoldable pub linger_loop : ℕ → Instant → Channel → HostWorld → Option (Channel × HostWorld)
  linger_loop zero deadline ch w = none
  linger_loop (suc fuel) deadline ch w =
      let ((r, ch'), w') = next codec deadline ch w in
      elim r [
        | ok (Next.msg _) ↦ linger_loop fuel deadline ch' w'
        | ok Next.malformed ↦ linger_loop fuel deadline ch' w'
        | ok Next.closed ↦ some (ch', w')
        | ok Next.timed_out ↦ some (ch', w')
        | err _ ↦ some (ch', w')
      ]

  -- Each round but the last takes a message out of the channel.
  unfoldable pub linger : Instant → Channel → HostIo Channel
  linger deadline ch w = elim (linger_loop (length (inbox ch w) + 1) deadline ch w) [
    | none ↦ (ch, w)
    | some r ↦ r
  ]

  -- The channel is dropped at the end, which closes it.
  unfoldable pub reject_decision :
      RejectReason
      → AttemptFailure
      → Duration
      → HostState
      → Channel
      → HostIo (ServeOutcome × HostState)
  reject_decision reason failure wait st ch = do
    r ← send codec (Control.decision (rejected reason))
    ch' ← elim r [ err _ ↦ pure ch | ok _ ↦ do t ← now; linger (t + wait) ch ]
    close ch'
    pure (failed failure, st)
