-- ===== src/Host/Session/Types.antt =====
-- apps/host-agent/src/session.rs: configuration, state and outcomes.
use simple_remote.Base.{ℕ, List, Result, ok, err}
use simple_remote.Base.Text.{Str}
use simple_remote.Protocol.{Timeouts, Stage}
use simple_remote.Protocol.Signaling.{ServerToHost, HostToServer}
use simple_remote.Auth.Code.{OneTimeCode}
use simple_remote.Auth.Identity.{DeviceKeys, PeerIdentity}
use simple_remote.Transport.Interface.{LinkError, TransportError}
use simple_remote.Transport.World.{Io, pure, ◌>>=◌}
use simple_remote.Transport.Channel.{Channel}
use simple_remote.Host.Attempts.{AttemptLimiter}

pub record HostConfig : Type 0 where
  pub host_id : Str
  pub keys : DeviceKeys
  pub bind_ips : List Str
  pub timeouts : Timeouts
  pub protocol_version : ℕ

pub record HostState : Type 0 where
  pub code : OneTimeCode
  pub limiter : AttemptLimiter

pub data AttemptFailure : Type 0 where
  wait_required no_confirm wrong_code malformed : AttemptFailure
  timeout : Stage → AttemptFailure
  denied version_mismatch bad_identity transport : AttemptFailure

pub record HostSession : Type 0 where
  pub viewer : PeerIdentity
  pub ch : Channel

pub data ServeOutcome : Type 0 where
  session : HostSession → ServeOutcome
  failed : AttemptFailure → ServeOutcome
  viewer_left : ServeOutcome

pub data HostError : Type 0 where
  link : LinkError → HostError
  transport : TransportError → HostError

-- The host's surroundings, and what an attempt gives: its result and the state afterwards.
abbrev pub HostIo : Type 0 → Type 0
HostIo A = Io ServerToHost HostToServer A

abbrev pub Served : Type 0
Served = Result ServeOutcome HostError × HostState

-- `?` on a link error, and the state put beside a result.
abbrev pub question :
    {A : Type 0} → HostIo (Result A LinkError) → HostState → (A → HostIo Served) → HostIo Served
question m st k = do r ← m; elim r [ err e ↦ pure (err (link e), st) | ok a ↦ k a ]

abbrev pub beside : HostState → HostIo (Result ServeOutcome HostError) → HostIo Served
beside st m = do r ← m; pure (r, st)
