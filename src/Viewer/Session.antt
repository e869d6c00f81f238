-- ===== src/Viewer/Session.antt =====
-- crates/viewer-core/src/connect.rs: `connect` as a whole, and the pings of `ViewerSession`.
pub mod Accepted
pub mod Disclosed
pub mod Honest
pub mod Pings
use simple_remote.Base.{
  ℕ, zero, suc, ◌+◌, ◌-◌, ◌%◌, Option, none, some, List, Result, ok, err, length, ◌==◌,
  if◌then◌else◌,
}
use simple_remote.Base.Text.{Bytes, Str}
use simple_remote.Protocol.{Duration, Instant, from_millis, Timeouts, join, pake, ping}
use simple_remote.Protocol.Control.{Control}
use simple_remote.Protocol.PakeMsg.{PakeMsg}
use simple_remote.Protocol.Signaling.{ServerToViewer, ViewerToServer}
use simple_remote.Auth.Error.{AuthError}
use simple_remote.Auth.Code.{OneTimeCode}
use simple_remote.Auth.Pake.{viewer_start, viewer_finish}
use simple_remote.Auth.Sealed.{SessionKeys}
use simple_remote.Auth.Identity.{DeviceKeys, PeerIdentity}
use simple_remote.Transport.Interface.{LinkError, TransportError}
use simple_remote.Transport.World.{
  World, Io, pure, now, draw, link_recv, link_dropped, log, ◌>>=◌, ◌>>◌,
}
use simple_remote.Transport.Channel
use simple_remote.Transport.Channel.{Channel, inbox, close}
use simple_remote.Viewer.Connect.{
  ConnectError, wrong_code, retry_after, host_left, timeout, security, transport, from_link,
  ViewerIo, question, recv_relay, send_relay, next_control, handshake,
}
use simple_remote.Platform.{Platform}

pub record ViewerSession : Type 0 where
  pub host : PeerIdentity
  pub ch : Channel
  pub next_seq : ℕ

unfoldable pub drop_link : ViewerIo (Unit {0})
drop_link w = (tt, log link_dropped w)

-- The first `match` of `connect`
unfoldable pub on_join : Result (Option ServerToViewer) LinkError → Result (Unit {0}) ConnectError
on_join (ok (some ServerToViewer.joined)) = ok tt
on_join (ok (some ServerToViewer.host_left)) = err host_left
on_join (ok (some (ServerToViewer.relay _))) = err (security "unexpected relay")
on_join (ok none) = err (timeout join)
on_join (err e) = err (from_link e)

-- `pake.finish(..).map_err(..)`
unfoldable pub finish_error : AuthError → ConnectError
finish_error AuthError.wrong_code = wrong_code
finish_error _ = security "malformed relay"

module _ (p : Platform) where
  -- The `match` on the answer to `Start`
  unfoldable pub on_reply : p.pake_lib.StateA → PakeMsg → Result (SessionKeys × Bytes) ConnectError
  on_reply state (PakeMsg.reply pb mac_b) = elim (viewer_finish p.pake_lib state pb mac_b) [
    | ok r ↦ ok r
    | err e ↦ err (finish_error e)
  ]
  on_reply state (PakeMsg.retry_after ms) = err (retry_after (from_millis ms))
  on_reply state _ = err (security "unexpected relay")

  -- From the agreed keys on: a peer, the handshake, and the channel dropped if it fails.
  unfoldable pub with_keys :
      DeviceKeys
      → List Str
      → Timeouts
      → SessionKeys × Bytes
      → ViewerIo (Result ViewerSession ConnectError)
  with_keys keys bind_ips t (sk, mac_a) = elim (p.peer_new bind_ips) [
    | err e ↦ pure (err (transport e))
    | ok _ ↦ do
      (r, ch) ← handshake p keys t sk mac_a Channel.new
      elim r [
        | ok who ↦ pure (ok (record { host = who; ch = ch; next_seq = 0 }))
        | err e ↦ do close ch; pure (err e)
      ]
  ]

  -- The body of `connect`, before the link is dropped
  unfoldable pub connect_on :
      Str
      → OneTimeCode
      → DeviceKeys
      → List Str
      → Timeouts
      → ViewerIo (Result ViewerSession ConnectError)
  connect_on host_id code keys bind_ips t = do
    j ← link_recv t.signaling_step
    elim (on_join j) [
      | err e ↦ pure (err e)
      | ok _ ↦ do
        n ← draw
        elim (viewer_start p.pake_lib (p.fresh_bytes n) code host_id) [
          | err _ ↦ pure (err (security "pake start"))
          | ok (state, pa) ↦ question (send_relay p (PakeMsg.start pa)) λ _.
              question (recv_relay p t.signaling_step pake) λ m. elim (on_reply state m) [
                | err e ↦ pure (err e)
                | ok agreed ↦ with_keys keys bind_ips t agreed
              ]
        ]
    ]

  unfoldable pub connect :
      Str
      → OneTimeCode
      → DeviceKeys
      → List Str
      → Timeouts
      → ViewerIo (Result ViewerSession ConnectError)
  connect host_id code keys bind_ips t = do
    r ← connect_on host_id code keys bind_ips t
    drop_link
    pure r

  -- The loop of `ViewerSession::ping`; `none` when the fuel runs out.
  unfoldable pub ping_loop :
      ℕ
      → ℕ
      → Instant
      → Instant
      → Channel
      → World ServerToViewer ViewerToServer
      → Option ((Result Duration ConnectError × Channel) × World ServerToViewer ViewerToServer)
  ping_loop zero seq start deadline ch w = none
  ping_loop (suc fuel) seq start deadline ch w =
      let ((r, ch'), w1) = next_control p deadline ping ch w in
      let again = ping_loop fuel seq start deadline ch' w1 in
      elim r [
        | err e ↦ some ((err e, ch'), w1)
        | ok (Control.pong got) ↦
            if got == seq
            then (let (at, w2) = now w1 in some ((ok (at - start), ch'), w2))
            else again
        | ok _ ↦ again
      ]

  -- Each round but the last takes a message out of the channel.
  unfoldable pub send_ping :
      Duration → ViewerSession → ViewerIo (Result Duration ConnectError × ViewerSession)
  send_ping limit s w =
      let seq = s.next_seq in
      let s' = record s { next_seq = (seq + 1) % 18446744073709551616 } in
      let (start, w1) = now w in
      let (sent, w2) = Channel.send p.control_codec (Control.ping seq) w1 in
      elim sent [
        | err e ↦ ((err (transport e), s'), w2)
        | ok _ ↦ elim (ping_loop (length (inbox s.ch w2) + 1) seq start (start + limit) s.ch w2) [
          | none ↦ ((err (timeout ping), s'), w2)
          | some ((r, ch'), w3) ↦ ((r, record s' { ch = ch' }), w3)
        ]
      ]
