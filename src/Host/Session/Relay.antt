-- ===== src/Host/Session/Relay.antt =====
-- apps/host-agent/src/session.rs: `send_relay`, `recv_relay`, `kicked`, `reject_relay`.
use simple_remote.Base.{Option, none, some, Result, ok, err}
use simple_remote.Protocol.{Duration}
use simple_remote.Protocol.PakeMsg
use simple_remote.Protocol.PakeMsg.{PakeMsg}
use simple_remote.Protocol.Signaling.{ServerToHost, HostToServer}
use simple_remote.Transport.Interface.{LinkError}
use simple_remote.Transport.World.{pure, link_send, link_recv, ◌>>=◌}
use simple_remote.Host.Session.Types.{HostIo, ServeOutcome, failed, AttemptFailure, HostError, link}
use simple_remote.Platform.{Platform}

pub data Relay : Type 0 where
  msg : PakeMsg → Relay
  malformed left timed_out : Relay

-- What one signaling message means while an attempt runs.
unfoldable pub relay_of : Platform → Option ServerToHost → Relay
relay_of p (some (ServerToHost.relay text)) = elim (p.hex.from_wire text) [
  | none ↦ malformed
  | some bytes ↦ elim (PakeMsg.decode p.pake_codec bytes) [ none ↦ malformed | some m ↦ msg m ]
]
relay_of p (some ServerToHost.viewer_left) = left
relay_of p (some _) = malformed
relay_of p none = timed_out

unfoldable pub recv_relay : Platform → Duration → HostIo (Result Relay LinkError)
recv_relay p timeout = do
  r ← link_recv timeout
  elim r [ err e ↦ pure (err e) | ok m ↦ pure (ok (relay_of p m)) ]

unfoldable pub send_relay : Platform → PakeMsg → HostIo (Result (Unit {0}) LinkError)
send_relay p m = link_send (HostToServer.relay (p.hex.to_wire (PakeMsg.encode p.pake_codec m)))

unfoldable pub kicked : AttemptFailure → HostIo (Result ServeOutcome HostError)
kicked failure = do
  r ← link_send HostToServer.kick
  elim r [ err e ↦ pure (err (link e)) | ok _ ↦ pure (ok (failed failure)) ]

unfoldable pub reject_relay : Platform → AttemptFailure → HostIo (Result ServeOutcome HostError)
reject_relay p failure = do
  r ← send_relay p PakeMsg.rejected
  elim r [ err e ↦ pure (err (link e)) | ok _ ↦ kicked failure ]
