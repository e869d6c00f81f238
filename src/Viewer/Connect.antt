-- ===== src/Viewer/Connect.antt =====
-- crates/viewer-core/src/connect.rs: `connect`, from the signaling link to the host's decision.
-- A path that fails drops the channel, which closes it, and then the link.
pub mod Accepted
use simple_remote.Base.{
  ℕ, ◌+◌, Option, none, some, List, Result, ok, err, ltb, ◌==◌, String, if◌then◌else◌, ok_or,
}
use simple_remote.Base.Text.{Bytes, Str, utf8}
use simple_remote.Protocol.{
  protocol_version, Duration, Instant, from_millis, Timeouts, Stage, join, pake, answer, connect,
  hello, decision,
}
use simple_remote.Protocol.Control.{Control, Decision, accepted, RejectReason}
use simple_remote.Protocol.PakeMsg
use simple_remote.Protocol.PakeMsg.{PakeMsg}
use simple_remote.Protocol.Signaling.{ServerToViewer, ViewerToServer}
use simple_remote.Auth.Code.{OneTimeCode}
use simple_remote.Auth.Pake.{viewer_start, viewer_finish}
use simple_remote.Auth.Sealed.{SessionKeys, viewer_side}
use simple_remote.Auth.Identity.{Role, DeviceKeys, PeerIdentity, make_hello, verify_hello}
use simple_remote.Transport.Interface.{LinkError, TransportError}
use simple_remote.Transport.World.{
  World, Io, pure, now, draw, link_recv, link_send, link_dropped, log, ◌>>=◌, ◌>>◌,
}
use simple_remote.Transport.Channel
use simple_remote.Transport.Channel.{Channel, Next, Opened, wait_open, close}
use simple_remote.Host.Session.Attempt.{first_sealed, opened_text}
use simple_remote.Platform.{Platform}

-- The side with the lower version.
pub data Side : Type 0 where
  viewer host : Side

pub data ConnectError : Type 0 where
  wrong_code : ConnectError
  retry_after : Duration → ConnectError
  host_not_waiting busy rate_limited host_left : ConnectError
  rejected : RejectReason → ConnectError
  -- ours, theirs, the older side
  version_mismatch : ℕ → ℕ → Side → ConnectError
  timeout : Stage → ConnectError
  security : String → ConnectError
  link : LinkError → ConnectError
  transport : TransportError → ConnectError

-- `ConnectError::from_join_error`
unfoldable pub from_join_error : LinkError → ConnectError
from_join_error (LinkError.http status) =
    if status == 404
    then host_not_waiting
    else if status == 409
    then busy
    else if status == 429
    then rate_limited
    else link (LinkError.http status)
from_join_error e = link e

unfoldable pub from_link : LinkError → ConnectError
from_link (LinkError.closed code) = host_left
from_link e = link e

abbrev pub ViewerIo : Type 0 → Type 0
ViewerIo A = Io ServerToViewer ViewerToServer A

-- `?`
abbrev pub question :
    {A B : Type 0}
    → ViewerIo (Result A ConnectError)
    → (A → ViewerIo (Result B ConnectError))
    → ViewerIo (Result B ConnectError)
question m k = do r ← m; elim r [ err e ↦ pure (err e) | ok a ↦ k a ]

-- The same where a channel is carried along.
abbrev pub question_on :
    {A B : Type 0}
    → ViewerIo (Result A ConnectError × Channel)
    → (A → Channel → ViewerIo (Result B ConnectError × Channel))
    → ViewerIo (Result B ConnectError × Channel)
question_on m k = do (r, ch) ← m; elim r [ err e ↦ pure (err e, ch) | ok a ↦ k a ch ]

-- What one signaling message means in the exchange.
unfoldable pub relay_of : Platform → Stage → Option ServerToViewer → Result PakeMsg ConnectError
relay_of p stage (some (ServerToViewer.relay text)) = elim (p.hex.from_wire text) [
  | none ↦ err (security "malformed relay")
  | some bytes ↦ ok_or (PakeMsg.decode p.pake_codec bytes) (security "malformed relay")
]
relay_of p stage (some ServerToViewer.host_left) = err host_left
relay_of p stage (some ServerToViewer.joined) = err (security "unexpected signaling")
relay_of p stage none = err (timeout stage)

unfoldable pub recv_relay : Platform → Duration → Stage → ViewerIo (Result PakeMsg ConnectError)
recv_relay p limit stage = do
  r ← link_recv limit
  elim r [ err e ↦ pure (err (from_link e)) | ok m ↦ pure (relay_of p stage m) ]

unfoldable pub send_relay : Platform → PakeMsg → ViewerIo (Result (Unit {0}) ConnectError)
send_relay p m = do
  r ← link_send (ViewerToServer.relay (p.hex.to_wire (PakeMsg.encode p.pake_codec m)))
  elim r [
    | ok _ ↦ pure (ok tt)
    | err (LinkError.closed _) ↦ pure (ok tt)
    | err e ↦ pure (err (link e))
  ]

-- What one answer of the channel means.
unfoldable pub control_of : Stage → Result Next TransportError → Result Control ConnectError
control_of stage (ok (Next.msg m)) = ok m
control_of stage (ok Next.malformed) = err (security "malformed control")
control_of stage (ok Next.closed) = err host_left
control_of stage (ok Next.timed_out) = err (timeout stage)
control_of stage (err e) = err (transport e)

unfoldable pub next_control :
    Platform → Instant → Stage → Channel → ViewerIo (Result Control ConnectError × Channel)
next_control p deadline stage ch = do
  (r, ch') ← Channel.next p.control_codec deadline ch
  pure (control_of stage r, ch')

-- The last `match` of `handshake`
unfoldable pub on_decision : PeerIdentity → Control → Result PeerIdentity ConnectError
on_decision who (Control.decision accepted) = ok who
on_decision who (Control.decision (Decision.rejected (RejectReason.version_mismatch theirs))) =
    err (
      ConnectError.version_mismatch protocol_version theirs
        (if ltb protocol_version theirs then Side.viewer else Side.host))
on_decision who (Control.decision (Decision.rejected reason)) = err (ConnectError.rejected reason)
on_decision who _ = err (security "unexpected control")

module _ (p : Platform) (keys : DeviceKeys) (t : Timeouts) where
  -- The `match` on the host's first control message
  unfoldable pub on_hello : SessionKeys → Bytes → Control → Result PeerIdentity ConnectError
  on_hello sk remote (Control.hello h) =
      elim (verify_hello p.ed25519 h Role.host sk.hello_binding remote p.local_fingerprint) [
        | err _ ↦ err (security "host identity")
        | ok who ↦ ok who
      ]
  on_hello sk remote _ = err (security "unexpected control")

  unfoldable pub await_decision :
      PeerIdentity → Channel → ViewerIo (Result PeerIdentity ConnectError × Channel)
  await_decision who ch = do
    at ← now
    question_on (next_control p (at + t.approval + t.signaling_step) decision ch)
        λ m ch'. pure (on_decision who m, ch')

  -- From the open channel on: both `Hello`s, then the decision
  unfoldable pub exchange_hello :
      SessionKeys → Bytes → Channel → ViewerIo (Result PeerIdentity ConnectError × Channel)
  exchange_hello sk remote ch = do
    sent ← Channel.send p.control_codec (
        Control.hello
          (make_hello p.ed25519 keys Role.viewer sk.hello_binding p.local_fingerprint remote))
    elim sent [
      | err e ↦ pure (err (transport e), ch)
      | ok _ ↦ do
        at ← now
        question_on (next_control p (at + t.signaling_step) hello ch) λ m ch'.
            elim (on_hello sk remote m) [
              | err e ↦ pure (err e, ch')
              | ok who ↦ await_decision who ch'
            ]
    ]

  unfoldable pub on_open :
      SessionKeys
      → Result Opened TransportError × Channel
      → ViewerIo (Result PeerIdentity ConnectError × Channel)
  on_open sk (ok Opened.ready, ch) = elim p.remote_fingerprint [
    | none ↦ pure (err (security "no remote fingerprint"), ch)
    | some remote ↦ exchange_hello sk remote ch
  ]
  on_open sk (ok Opened.closed, ch) = pure (err host_left, ch)
  on_open sk (ok Opened.timed_out, ch) = pure (err (timeout connect), ch)
  on_open sk (err e, ch) = pure (err (transport e), ch)

  -- The `match` on the answer to `Confirm`, and the opening of what it holds
  unfoldable pub on_answer : SessionKeys → PakeMsg → Result Str ConnectError
  on_answer sk (PakeMsg.answer sealed_answer) =
      ok_or (opened_text p.aead (viewer_side sk).1 sealed_answer) (security "sealed answer")
  on_answer sk PakeMsg.rejected = err (security "host rejected confirm")
  on_answer sk _ = err (security "unexpected relay")

  unfoldable pub use_answer :
      SessionKeys → Str → Channel → ViewerIo (Result PeerIdentity ConnectError × Channel)
  use_answer sk sdp ch = elim (p.accept_answer sdp) [
    | err e ↦ pure (err (transport e), ch)
    | ok _ ↦ do at ← now; opened ← wait_open (at + t.connect) ch; on_open sk opened
  ]

  unfoldable pub handshake :
      SessionKeys → Bytes → Channel → ViewerIo (Result PeerIdentity ConnectError × Channel)
  handshake sk mac_a ch = elim p.create_offer [
    | err e ↦ pure (err (transport e), ch)
    | ok offer ↦ do
      let sealed_offer = first_sealed p.aead (viewer_side sk).0 (utf8 offer)
      sent ← send_relay p (PakeMsg.confirm mac_a sealed_offer)
      elim sent [
        | err e ↦ pure (err e, ch)
        | ok _ ↦ do
          r ← recv_relay p t.signaling_step answer
          elim r [
            | err e ↦ pure (err e, ch)
            | ok m ↦ elim (on_answer sk m) [
              | err e ↦ pure (err e, ch)
              | ok sdp ↦ use_answer sk sdp ch
            ]
          ]
      ]
  ]
