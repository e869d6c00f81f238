-- ===== src/Viewer/Session/Honest.antt =====
-- What `connect` gives when the host follows the protocol.
use simple_remote.Base.{ℕ, ◌+◌, ◌<◌, ◌≡◌, some, List, [], ◌∷◌, Result, ok, arith}
use simple_remote.Base.Text.{Bytes, Str, utf8}
use simple_remote.Protocol.{Instant, Timeouts, pake, answer}
use simple_remote.Protocol.Control.{Control, Hello, accepted, encode, decode}
use simple_remote.Protocol.PakeMsg
use simple_remote.Protocol.PakeMsg.{PakeMsg}
use simple_remote.Protocol.Signaling.{ServerToViewer, ViewerToServer}
use simple_remote.Auth.Code.{OneTimeCode}
use simple_remote.Auth.Pake.{viewer_start, viewer_finish}
use simple_remote.Auth.Sealed.{SessionKeys, viewer_side}
use simple_remote.Auth.Identity.{Role, DeviceKeys, PeerIdentity, make_hello, verify_hello}
use simple_remote.Transport.Interface.{TransportError, PeerEvent, channel_open, received}
use simple_remote.Transport.World.{
  Call, now, draw, link_recv, link_send, link_sent, link_dropped, peer_send, peer_sent,
}
use simple_remote.Transport.Channel
use simple_remote.Transport.Channel.{decoded, send}
use simple_remote.Transport.Channel.Calm.{calm, holding, wait_open-calm, next-held, next-calm}
use simple_remote.Host.Session.Attempt.{first_sealed, opened_text}
use simple_remote.Viewer.Connect.{
  relay_of, recv_relay, send_relay, control_of, next_control, on_decision, on_hello, await_decision,
  exchange_hello, on_open, on_answer, use_answer, handshake,
}
use simple_remote.Viewer.Session.{
  ViewerSession, drop_link, on_join, on_reply, with_keys, connect_on, connect,
}
use simple_remote.Platform.{Platform}

abbrev Trace : Type 0
Trace = List (Call ViewerToServer)

-- A message of the exchange on the link.
abbrev pub relayed : Platform → PakeMsg → Call ViewerToServer
relayed p m = link_sent (ViewerToServer.relay (p.hex.to_wire (PakeMsg.encode p.pake_codec m)))

module _ (p : Platform) where
  abbrev pub greeting : DeviceKeys → SessionKeys → Bytes → Call ViewerToServer
  greeting keys sk remote = peer_sent (
      encode p.control_codec (
        Control.hello
          (make_hello p.ed25519 keys Role.viewer sk.hello_binding p.local_fingerprint remote)))

  abbrev pub confirm_with : SessionKeys → Bytes → Str → Call ViewerToServer
  confirm_with sk mac_a offer =
      relayed p (PakeMsg.confirm mac_a (first_sealed p.aead (viewer_side sk).0 (utf8 offer)))

abbrev pub begun : PeerIdentity → ViewerSession
begun who = record { host = who; ch = holding []; next_seq = 0 }

-- The host's `Hello`, its decision and their bytes are right.
module _ (p : Platform) (keys : DeviceKeys) (limits : Timeouts) (t : Instant) (n : ℕ)
    (sk : SessionKeys) (remote d1 d2 : Bytes) (h : Hello) (who : PeerIdentity)
    (known : p.remote_fingerprint ≡ some remote)
    (read1 : decode p.control_codec d1 ≡ ok (Control.hello h))
    (read2 : decode p.control_codec d2 ≡ ok (Control.decision accepted))
    (good : verify_hello p.ed25519 h Role.host sk.hello_binding remote p.local_fingerprint ≡ ok who)
    (soon : 0 < limits.signaling_step) (time : 0 < limits.connect) where
  abbrev Polls : Type 0
  Polls = List (Result (List PeerEvent) TransportError)

  abbrev decided : Polls
  decided = ok (received d2 ∷ []) ∷ []

  await_decision-calm :
      (trace : Trace)
      → await_decision p keys limits who (holding []) (calm t [] decided [] n trace)
        ≡ ((ok who, holding []), calm t [] [] [] n trace)
  unfolding await_decision next_control control_of on_decision now
  await_decision-calm trace = ground (
    arith,
    next-calm {In = ServerToViewer} t [] [] [] n trace p.control_codec
        (t + limits.approval + limits.signaling_step) d2,
  )

  exchange_hello-calm :
      (trace : Trace)
      → exchange_hello p keys limits sk remote (holding (d1 ∷ [])) (calm t [] decided [] n trace)
        ≡ ((ok who, holding []), calm t [] [] [] n (greeting p keys sk remote ∷ trace))
  unfolding exchange_hello next_control control_of on_hello send peer_send now
  exchange_hello-calm trace =
      let sent = greeting p keys sk remote ∷ trace in
      ground (
        arith,
        next-held {In = ServerToViewer} t [] decided [] n sent p.control_codec
            (t + limits.signaling_step) d1 [],
        await_decision-calm sent,
      )

  abbrev arriving : Polls
  arriving = ok (channel_open ∷ received d1 ∷ []) ∷ decided

  use_answer-calm :
      (sdp : Str) (trace : Trace)
      → p.accept_answer sdp ≡ ok tt
      → use_answer p keys limits sk sdp Channel.new (calm t [] arriving [] n trace)
        ≡ ((ok who, holding []), calm t [] [] [] n (greeting p keys sk remote ∷ trace))
  unfolding use_answer on_open now
  use_answer-calm sdp trace takes = ground (
    arith,
    wait_open-calm {In = ServerToViewer} t [] decided [] n trace (t + limits.connect) d1,
    exchange_hello-calm trace,
  )

  module _ (offer sdp : Str) (sealed mac_a : Bytes) (made : p.create_offer ≡ ok offer)
      (opened : opened_text p.aead (viewer_side sk).1 sealed ≡ some sdp)
      (takes : p.accept_answer sdp ≡ ok tt) (third : Str)
      (answers : relay_of p answer (some (ServerToViewer.relay third))
        ≡ ok (PakeMsg.answer sealed)) where
    handshake-calm :
        (trace : Trace)
        → handshake p keys limits sk mac_a Channel.new
            (calm t (ok (some (ServerToViewer.relay third)) ∷ []) arriving [] n trace)
          ≡ (
            (ok who, holding []),
            calm t [] [] [] n (greeting p keys sk remote ∷ confirm_with p sk mac_a offer ∷ trace),
          )
    unfolding handshake send_relay link_send recv_relay link_recv on_answer
    handshake-calm trace =
        ground (arith, use_answer-calm sdp (confirm_with p sk mac_a offer ∷ trace) takes)

    -- When the server lets the viewer in, the host replies with the right MAC, answers with a sealed
    -- answer, greets with a `Hello` that is verified and sends `Accepted`, and nothing fails
    -- meanwhile, `connect` gives a session with that host; and these are the messages that it has
    -- sent.
    pub connect-calm :
        (host_id : Str) (code : OneTimeCode) (bind_ips : List Str) (state : p.pake_lib.StateA)
        (pa pb mac_b : Bytes) (second : Str) (k : ℕ)
        → k + 1 ≡ n
        → viewer_start p.pake_lib (p.fresh_bytes k) code host_id ≡ ok (state, pa)
        → relay_of p pake (some (ServerToViewer.relay second)) ≡ ok (PakeMsg.reply pb mac_b)
        → viewer_finish p.pake_lib state pb mac_b ≡ ok (sk, mac_a)
        → p.peer_new bind_ips ≡ ok tt
        → connect p host_id code keys bind_ips limits (
            calm t
              (ok (some ServerToViewer.joined)
                ∷ ok (some (ServerToViewer.relay second))
                ∷ ok (some (ServerToViewer.relay third))
                ∷ [])
              arriving
              []
              k
              [])
          ≡ (
            ok (begun who),
            calm t [] [] [] n (
                link_dropped
                ∷ greeting p keys sk remote
                ∷ confirm_with p sk mac_a offer
                ∷ relayed p (PakeMsg.start pa)
                ∷ []),
          )
    unfolding connect drop_link connect_on with_keys on_join on_reply draw send_relay link_send
        recv_relay link_recv
    connect-calm host_id code bind_ips state pa pb mac_b second k step starts replies finishes
          peers =
        ground (
          arith,
          step,
          starts,
          replies,
          finishes,
          peers,
          handshake-calm (relayed p (PakeMsg.start pa) ∷ []),
        )
