-- ===== src/Console/HostAgent.antt =====
-- apps/host-agent/src/main.rs: the start of the host and one round of its loop, which has no end of
-- its own. `WsLink::connect` is the parameter `opened`, and the list that `transport::local_ips` gives
-- is the parameter `ips`. Lines on the standard output are a list, newest first; what the program says
-- on standard error is left out. The user's answers are those of the surroundings.
pub mod Lasting
pub mod Outcomes
use simple_remote.Base.{
  ℕ, Bool, true, false, Option, none, some, List, [], ◌∷◌, ◌++◌, Result, ok, err, codes, bytes_eq,
  if◌then◌else◌,
}
use simple_remote.Base.Text.{Bytes, Str}
use simple_remote.Protocol.{Duration, from_secs, default_timeouts, protocol_version}
use simple_remote.Protocol.Signaling.{ServerToHost, HostToServer}
use simple_remote.Auth.Code.{OneTimeCode}
use simple_remote.Auth.Identity
use simple_remote.Auth.Identity.{DeviceKeys, key_fingerprint}
use simple_remote.Transport.Interface.{LinkError}
use simple_remote.Transport.World.{World, pure, draw, ◌>>=◌, ◌>>◌}
use simple_remote.Transport.Channel.{close}
use simple_remote.Host.Attempts
use simple_remote.Host.Register.{register_host}
use simple_remote.Host.Session.Types.{
  HostIo, HostConfig, HostState, HostSession, HostError, AttemptFailure, wait_required, no_confirm,
  wrong_code, malformed, timeout, denied, version_mismatch, bad_identity, transport, session,
  failed, viewer_left, ServeOutcome,
}
use simple_remote.Host.Session.Approval.{HostWorld}
use simple_remote.Host.Session.Attempt.{serve_next}
use simple_remote.Host.Session.Pings.{serve_pings}
use simple_remote.Console.Text.{
  Exit, success, failure, usage, show_stage, connected_line, or_localhost,
}
use simple_remote.Console.Args.{HostArgs, parse_host_args}
use simple_remote.Platform.{Platform}

abbrev pub session_limit : Duration
session_limit = from_secs 3600

-- The lines of the standard output
pub data Line : Type 0 where
  id_line : Str → Line
  code_line : OneTimeCode → Line
  -- the name and the fingerprint of the viewer
  connected : Str → Str → Line
  disconnected : Line
  attempt : AttemptFailure → Line

-- `{failure:?}`
unfoldable pub show_failure : AttemptFailure → Str
show_failure wait_required = codes "WaitRequired"
show_failure no_confirm = codes "NoConfirm"
show_failure wrong_code = codes "WrongCode"
show_failure malformed = codes "Malformed"
show_failure (timeout stage) = codes "Timeout(" ++ (show_stage stage ++ codes ")")
show_failure denied = codes "Denied"
show_failure version_mismatch = codes "VersionMismatch"
show_failure bad_identity = codes "BadIdentity"
show_failure transport = codes "Transport"

unfoldable pub text : Line → Str
text (id_line id) = codes "ID " ++ id
text (code_line code) = codes "CODE " ++ code.digits
text (connected name fingerprint) = connected_line name fingerprint
text disconnected = codes "DISCONNECTED"
text (attempt f) = codes "ATTEMPT " ++ show_failure f

-- The variables of `main`, and its output
pub record Console : Type 0 where
  pub host : HostState
  pub shown_code : OneTimeCode
  pub out : List Line

abbrev pub say : Line → Console → Console
say line c = record c { out = line ∷ c.out }

-- `if state.code != shown_code`
unfoldable pub show_code : Console → Console
show_code c =
    if bytes_eq c.host.code.digits c.shown_code.digits
    then c
    else say (code_line c.host.code) (record c { shown_code = c.host.code })

-- `--once`: the exit code after a session
unfoldable pub after_session : Bool → Result (Unit {0}) HostError → Option Exit
after_session false served = none
after_session true (ok _) = some success
after_session true (err _) = some failure

module _ (p : Platform) where
  -- The arm for a session, at whose end the session is dropped
  unfoldable pub serve_session : Bool → Console → HostSession → HostIo (Option Exit × Console)
  serve_session once c s = do
    (served, ch) ← serve_pings p.control_codec session_limit s.ch
    close ch
    let fingerprint = key_fingerprint p.sha256 p.hex s.viewer.device_key
    pure (after_session once served, say disconnected (say (connected s.viewer.name fingerprint) c))

  unfoldable pub on_outcome :
      Bool → Console → Result ServeOutcome HostError → HostIo (Option Exit × Console)
  on_outcome once c (ok (session s)) = serve_session once c s
  on_outcome once c (ok (failed f)) = pure (none, say (attempt f) c)
  on_outcome once c (ok viewer_left) = pure (none, c)
  on_outcome once c (err e) = pure (some failure, c)

  -- One round of the loop: whether the program ends. `none`: no viewer comes any more, and the host
  -- goes on waiting.
  unfoldable pub round :
      HostConfig → Bool → Console → HostWorld → Option ((Option Exit × Console) × HostWorld)
  round cfg once c w = elim (serve_next p cfg c.host w) [
    | none ↦ none
    | some ((outcome, st), w1) ↦
        some (on_outcome once (show_code (record c { host = st })) outcome w1)
  ]

  module _ (opened : Str → Result (Unit {0}) LinkError) (ips : List Str) where
    -- What `main` does with the id that the server has given
    unfoldable pub begin : DeviceKeys → Str → HostIo (HostConfig × Console)
    begin keys host_id = do
      n ← draw
      let code = p.fresh_code n
      pure (
        record {
          host_id = host_id;
          keys = keys;
          bind_ips = or_localhost ips;
          timeouts = default_timeouts;
          protocol_version = protocol_version;
        },
        record {
          host = record { code = code; limiter = Attempts.new };
          shown_code = code;
          out = code_line code ∷ id_line host_id ∷ [];
        },
      )

    -- `main` up to the loop: the exit code of a start that fails, or `--once`, the configuration and
    -- the state.
    unfoldable pub boot : List Str → HostIo (Result (Bool × (HostConfig × Console)) Exit)
    boot args = elim (parse_host_args args) [
      | none ↦ pure (err usage)
      | some a ↦ do
        n ← draw
        m ← draw
        elim (Identity.generate (p.fresh_bytes n) (p.fresh_bytes m) a.name) [
          | err _ ↦ pure (err usage)
          | ok keys ↦ do
            r ← register_host p.ed25519 p.hex keys opened a.server none
            elim r [
              | err _ ↦ pure (err failure)
              | ok host_id ↦ do started ← begin keys host_id; pure (ok (a.once, started))
            ]
        ]
    ]
