-- ===== src/Host/Session/Handshake.antt =====
-- apps/host-agent/src/session.rs: `handshake`, from the opening of the data channel to the session.
-- A path that fails drops the channel, which closes it.
pub mod Outcomes
pub mod Trusted
use simple_remote.Base.{ℕ, ◌+◌, Option, none, some, Result, ok, err, ◌==◌, not, if◌then◌else◌}
use simple_remote.Base.Text.{Bytes, Str}
use simple_remote.Protocol.{connect, hello}
use simple_remote.Protocol.Control.{
  Control, Hello, accepted, denied, no_response, version_mismatch, bad_identity,
}
use simple_remote.Auth.Identity.{
  PeerIdentity, host, viewer, make_hello, verify_hello, key_fingerprint,
}
use simple_remote.Auth.Sealed.{SessionKeys}
use simple_remote.Transport.Interface.{TransportError}
use simple_remote.Transport.World.{World, Io, pure, now, draw, ◌>>=◌, ◌>>◌}
use simple_remote.Transport.Channel.{Channel, Next, Opened, wait_open, next, send, close}
use simple_remote.Host.Session.Types.{
  HostIo, HostConfig, HostState, HostSession, ServeOutcome, session, failed, AttemptFailure,
  malformed, timeout, transport,
}
use simple_remote.Host.Session.Approval.{Approval, granted, broken, wait_approval, reject_decision}
use simple_remote.Platform.{Platform}

abbrev pub Shaken : Type 0
Shaken = ServeOutcome × HostState

unfoldable pub fail : AttemptFailure → HostState → Channel → HostIo Shaken
fail failure st ch = do close ch; pure (failed failure, st)

module _ (p : Platform) (cfg : HostConfig) where
  -- The end of `handshake`: the decision is sent and the code replaced.
  unfoldable pub accept : PeerIdentity → HostState → Channel → HostIo Shaken
  accept who st ch = do
    r ← send p.control_codec (Control.decision accepted)
    elim r [
      | err _ ↦ fail transport st ch
      | ok _ ↦ do
        n ← draw
        pure (session (record { viewer = who; ch = ch }), record st { code = p.fresh_code n })
    ]

  -- The `match` on the answer of `wait_approval`
  unfoldable pub decide : PeerIdentity → HostState → Approval × Channel → HostIo Shaken
  decide who st (granted, ch) = accept who st ch
  decide who st (Approval.denied, ch) =
      reject_decision p.control_codec denied AttemptFailure.denied cfg.timeouts.signaling_step st ch
  decide who st (Approval.no_response, ch) =
      reject_decision p.control_codec no_response AttemptFailure.denied cfg.timeouts.signaling_step
        st ch
  decide who st (broken f, ch) = fail f st ch

  unfoldable pub ask_user : PeerIdentity → HostState → Channel → HostIo Shaken
  ask_user who st ch = do
    a ←
        wait_approval p.control_codec who.name (key_fingerprint p.sha256 p.hex who.device_key)
          cfg.timeouts.approval ch
    decide who st a

  -- `verify_hello`, then the version
  unfoldable pub check_hello : SessionKeys → Bytes → Hello → HostState → Channel → HostIo Shaken
  check_hello sk remote h st ch =
      elim (verify_hello p.ed25519 h viewer sk.hello_binding remote p.local_fingerprint) [
        | err _ ↦
            reject_decision p.control_codec bad_identity AttemptFailure.bad_identity
              cfg.timeouts.signaling_step st ch
        | ok who ↦
            if not (h.protocol_version == cfg.protocol_version)
            then reject_decision p.control_codec (version_mismatch cfg.protocol_version)
                AttemptFailure.version_mismatch cfg.timeouts.signaling_step st ch
            else ask_user who st ch
      ]

  -- The `match` on the first message after the opening
  unfoldable pub on_hello :
      SessionKeys → Bytes → HostState → Result Next TransportError × Channel → HostIo Shaken
  on_hello sk remote st (ok (Next.msg (Control.hello h)), ch) = check_hello sk remote h st ch
  on_hello sk remote st (ok (Next.msg _), ch) = fail malformed st ch
  on_hello sk remote st (ok Next.malformed, ch) = fail malformed st ch
  on_hello sk remote st (ok Next.timed_out, ch) = fail (timeout hello) st ch
  on_hello sk remote st (ok Next.closed, ch) = fail transport st ch
  on_hello sk remote st (err _, ch) = fail transport st ch

  unfoldable pub exchange_hello : SessionKeys → Bytes → HostState → Channel → HostIo Shaken
  exchange_hello sk remote st ch =
      let mine = make_hello p.ed25519 cfg.keys host sk.hello_binding p.local_fingerprint remote in
      do
        r ←
            send p.control_codec
              (Control.hello (record mine { protocol_version = cfg.protocol_version }))
        elim r [
          | err _ ↦ fail transport st ch
          | ok _ ↦ do
            t ← now
            answer ← next p.control_codec (t + cfg.timeouts.signaling_step) ch
            on_hello sk remote st answer
        ]

  -- The `match` on the answer of `wait_open`
  unfoldable pub on_open :
      SessionKeys → HostState → Result Opened TransportError × Channel → HostIo Shaken
  on_open sk st (ok Opened.ready, ch) = elim p.remote_fingerprint [
    | none ↦ fail AttemptFailure.bad_identity st ch
    | some remote ↦ exchange_hello sk remote st ch
  ]
  on_open sk st (ok Opened.timed_out, ch) = fail (timeout connect) st ch
  on_open sk st (ok Opened.closed, ch) = fail transport st ch
  on_open sk st (err _, ch) = fail transport st ch

  unfoldable pub handshake : SessionKeys → HostState → Channel → HostIo Shaken
  handshake sk st ch = do
    t ← now
    opened ← wait_open (t + cfg.timeouts.connect) ch
    on_open sk st opened
