-- ===== src/Host/Session/Attempt/Honest.antt =====
-- What an attempt gives when the viewer follows the protocol and the user agrees.
use simple_remote.Base.{
  ℕ, suc, ◌+◌, ◌/◌, ◌<◌, ◌≡◌, refl, true, Option, none, some, List, [], ◌∷◌, Result, ok, arith,
  Bool, Bool-cases, inl, inr,
}
use simple_remote.Base.Text.{Bytes, Str, utf8}
use simple_remote.Protocol.{Instant}
use simple_remote.Protocol.Control.{Control, Hello, accepted, encode, decode}
use simple_remote.Protocol.PakeMsg
use simple_remote.Protocol.PakeMsg.{PakeMsg}
use simple_remote.Protocol.Signaling.{ServerToHost, HostToServer}
use simple_remote.Auth.Pake.{host_respond, host_confirm}
use simple_remote.Auth.Sealed.{SessionKeys, host_side}
use simple_remote.Auth.Identity.{
  PeerIdentity, host, viewer, make_hello, verify_hello, key_fingerprint,
}
use simple_remote.Transport.Interface.{LinkError, TransportError, PeerEvent, channel_open, received}
use simple_remote.Transport.World.{
  Call, now, draw, ask, asked, link_sent, link_recv, link_send, peer_sent, peer_send,
}
use simple_remote.Transport.Channel
use simple_remote.Transport.Channel.{Channel, Next, Opened, decoded, next, send, wait_open}
use simple_remote.Transport.Channel.Calm.{calm, holding, wait_open-calm, next-held}
use simple_remote.Host.Attempts.{check, record_failure, record_success}
use simple_remote.Host.Session.Types.{HostConfig, HostState, HostSession, session}
use simple_remote.Host.Session.Relay.{Relay, relay_of, recv_relay, send_relay}
use simple_remote.Host.Session.Approval.{
  HostWorld, granted, approval_loop, wait_approval, approval_poll,
}
use simple_remote.Host.Session.Handshake.{
  accept, decide, ask_user, check_hello, on_hello, exchange_hello, on_open, handshake,
}
use simple_remote.Host.Session.Attempt.{
  first_sealed, opened_text, finish, negotiate, confirm_code, on_confirm, count_guess, respond,
  on_start, attempt,
}
use simple_remote.Platform.{Platform}

abbrev Trace : Type 0
Trace = List (Call HostToServer)

-- The messages to come over the link, and what a message of the exchange is on the link.
abbrev Inbox : Type 0
Inbox = List (Result (Option ServerToHost) LinkError)

abbrev pub relayed : Platform → PakeMsg → Call HostToServer
relayed p m = link_sent (HostToServer.relay (p.hex.to_wire (PakeMsg.encode p.pake_codec m)))

module _ (p : Platform) (cfg : HostConfig) where
  -- The last calls of an attempt that succeeds.
  abbrev pub agreement : PeerIdentity → Trace → Trace
  agreement who trace =
      peer_sent (encode p.control_codec (Control.decision accepted))
      ∷ asked who.name (key_fingerprint p.sha256 p.hex who.device_key) (some true)
      ∷ trace

  abbrev pub greeting : SessionKeys → Bytes → Call HostToServer
  greeting sk remote =
      let mine = make_hello p.ed25519 cfg.keys host sk.hello_binding p.local_fingerprint remote in
      peer_sent (
        encode p.control_codec
          (Control.hello (record mine { protocol_version = cfg.protocol_version })))

  abbrev pub reply_with : SessionKeys → Str → Call HostToServer
  reply_with sk answer =
      relayed p (PakeMsg.answer (first_sealed p.aead (host_side sk).0 (utf8 answer)))

  -- The state after a session has begun; `m` is the number of the last random value.
  abbrev pub renewed : ℕ → HostState
  renewed m = record {
    code = p.fresh_code m;
    limiter = record { consecutive_failures = 0; failures_on_code = 0; wait_until = none };
  }

abbrev pub begun : PeerIdentity → HostSession
begun who = record { viewer = who; ch = holding [] }

module _ (p : Platform) (cfg : HostConfig) (t : Instant) (n : ℕ) where
  wait_approval-calm :
      (name shown : Str) (ch : Channel) (trace : Trace)
      → wait_approval p.control_codec name shown cfg.timeouts.approval ch
          (calm t [] [] (some true ∷ []) n trace)
        ≡ ((granted, ch), calm t [] [] [] n (asked name shown (some true) ∷ trace))
  unfolding wait_approval approval_loop ask now
  wait_approval-calm name shown ch trace =
      let rounds = cfg.timeouts.approval / approval_poll in
      let fuel : rounds + 3 ≡ suc (rounds + 2) = omega arith in ground (arith, fuel)

  accept-calm :
      (who : PeerIdentity) (st : HostState) (ch : Channel) (trace : Trace)
      → accept p cfg who st ch (calm t [] [] [] n trace) ≡ (
        (session (record { viewer = who; ch = ch }), record st { code = p.fresh_code n }),
        calm t [] [] []
            (n + 1)
            (peer_sent (encode p.control_codec (Control.decision accepted)) ∷ trace),
      )
  unfolding accept send peer_send draw
  accept-calm who st ch trace = refl

  ask_user-calm :
      (who : PeerIdentity) (st : HostState) (ch : Channel) (trace : Trace)
      → ask_user p cfg who st ch (calm t [] [] (some true ∷ []) n trace) ≡ (
        (session (record { viewer = who; ch = ch }), record st { code = p.fresh_code n }),
        calm t [] [] [] (n + 1) (agreement p cfg who trace),
      )
  unfolding ask_user decide
  ask_user-calm who st ch trace =
      let shown = key_fingerprint p.sha256 p.hex who.device_key in
      ground (
        arith,
        wait_approval-calm who.name shown ch trace,
        accept-calm who st ch (asked who.name shown (some true) ∷ trace),
      )

  -- The viewer's `Hello`, its bytes and the certificate are right.
  module _ (sk : SessionKeys) (remote d : Bytes) (h : Hello) (who : PeerIdentity)
      (known : p.remote_fingerprint ≡ some remote)
      (read : decode p.control_codec d ≡ ok (Control.hello h))
      (good : verify_hello p.ed25519 h viewer sk.hello_binding remote p.local_fingerprint ≡ ok who)
      (same_version : h.protocol_version ≡ cfg.protocol_version) where
    check_hello-calm :
        (st : HostState) (trace : Trace)
        → check_hello p cfg sk remote h st (holding []) (calm t [] [] (some true ∷ []) n trace) ≡ (
          (session (record { viewer = who; ch = holding [] }), record st { code = p.fresh_code n }),
          calm t [] [] [] (n + 1) (agreement p cfg who trace),
        )
    unfolding check_hello
    check_hello-calm st trace = ground (arith, ask_user-calm who st (holding []) trace)

    exchange_hello-calm :
        (st : HostState) (trace : Trace)
        → exchange_hello p cfg sk remote st
            (holding (d ∷ []))
            (calm t [] [] (some true ∷ []) n trace)
          ≡ (
            (
              session (record { viewer = who; ch = holding [] }),
              record st { code = p.fresh_code n },
            ),
            calm t [] [] [] (n + 1) (agreement p cfg who (greeting p cfg sk remote ∷ trace)),
          )
    unfolding exchange_hello on_hello send peer_send now
    exchange_hello-calm st trace =
        let sent = greeting p cfg sk remote ∷ trace in
        let deadline = t + cfg.timeouts.signaling_step in
        ground (
          arith,
          next-held {In = ServerToHost} t [] [] (some true ∷ []) n sent p.control_codec deadline d
              [],
          check_hello-calm st sent,
        )

    handshake-calm :
        (st : HostState) (trace : Trace)
        → 0 < cfg.timeouts.connect
        → handshake p cfg sk st Channel.new
            (calm t [] (ok (channel_open ∷ received d ∷ []) ∷ []) (some true ∷ []) n trace)
          ≡ (
            (
              session (record { viewer = who; ch = holding [] }),
              record st { code = p.fresh_code n },
            ),
            calm t [] [] [] (n + 1) (agreement p cfg who (greeting p cfg sk remote ∷ trace)),
          )
    unfolding handshake on_open now
    handshake-calm st trace time = ground (
      arith,
      wait_open-calm {In = ServerToHost} t [] [] (some true ∷ []) n trace (t + cfg.timeouts.connect)
          d,
      exchange_hello-calm st trace,
    )

    -- From the confirmed key on.
    module _ (offer answer : Str) (sealed : Bytes) (time : 0 < cfg.timeouts.connect)
        (made : p.peer_new cfg.bind_ips ≡ ok tt) (takes : p.accept_offer offer ≡ ok answer) where
      abbrev arriving : Trace → HostWorld
      arriving trace = calm t [] (ok (channel_open ∷ received d ∷ []) ∷ []) (some true ∷ []) n trace

      negotiate-calm :
          (st : HostState) (trace : Trace)
          → negotiate p cfg sk st offer (arriving trace) ≡ (
            (ok (session (begun who)), record st { code = p.fresh_code n }),
            calm t [] [] [] (n + 1) (
                agreement p cfg who
                  (greeting p cfg sk remote ∷ reply_with p cfg sk answer ∷ trace)),
          )
      unfolding negotiate finish send_relay link_send
      negotiate-calm st trace =
          ground (arith, handshake-calm st (reply_with p cfg sk answer ∷ trace) time)

      confirm_code-calm :
          (output : p.pake_lib.Output) (mac_a : Bytes) (st : HostState) (trace : Trace)
          → host_confirm p.pake_lib output mac_a ≡ ok sk
          → opened_text p.aead (host_side sk).1 sealed ≡ some offer
          → confirm_code p cfg output st mac_a sealed (arriving trace) ≡ (
            (ok (session (begun who)), renewed p cfg n),
            calm t [] [] [] (n + 1) (
                agreement p cfg who
                  (greeting p cfg sk remote ∷ reply_with p cfg sk answer ∷ trace)),
          )
      unfolding confirm_code record_success
      confirm_code-calm output mac_a st trace confirmed opened =
          let st' : HostState = record st { limiter = record_success st.limiter } in
          ground (arith, negotiate-calm st' trace)

-- The guess is counted; the code may be replaced.
count_guess-calm :
    (p : Platform) (cfg : HostConfig) (t : Instant) (n : ℕ) (st : HostState) (inbox : Inbox)
    (polls : List (Result (List PeerEvent) TransportError)) (answers : List (Option Bool))
    (trace : Trace)
    → (m : ℕ) × (st' : HostState) × (count_guess p cfg st (calm t inbox polls answers n trace)
        ≡ (st', calm t inbox polls answers m trace))
unfolding count_guess now draw
count_guess-calm p cfg t n st inbox polls answers trace =
    let counted = record_failure st.limiter t in
    elim (Bool-cases counted.0.rotate_code) [
      | inl e ↦ (n + 1, record { code = p.fresh_code n; limiter = counted.1 }, ground (arith, e))
      | inr e ↦ (n, record st { limiter = counted.1 }, ground (arith, e))
    ]

module _ (p : Platform) (cfg : HostConfig) (t : Instant) (n : ℕ) (st : HostState)
    (pa pb mac_b : Bytes) (output : p.pake_lib.Output)
    (responds : host_respond p.pake_lib (p.fresh_bytes n) st.code cfg.host_id pa
      ≡ ok (output, pb, mac_b))
    (sk : SessionKeys) (mac_a sealed : Bytes)
    (confirmed : host_confirm p.pake_lib output mac_a ≡ ok sk) (offer answer : Str)
    (opened : opened_text p.aead (host_side sk).1 sealed ≡ some offer)
    (made : p.peer_new cfg.bind_ips ≡ ok tt) (takes : p.accept_offer offer ≡ ok answer)
    (remote d : Bytes) (h : Hello) (who : PeerIdentity) (known : p.remote_fingerprint ≡ some remote)
    (read : decode p.control_codec d ≡ ok (Control.hello h))
    (good : verify_hello p.ed25519 h viewer sk.hello_binding remote p.local_fingerprint ≡ ok who)
    (same_version : h.protocol_version ≡ cfg.protocol_version)
    (time : 0 < cfg.timeouts.connect) where
  -- The messages of the host, newest first, when all goes well.
  abbrev pub spoken : Trace
  spoken = agreement p cfg who (
      greeting p cfg sk remote
      ∷ reply_with p cfg sk answer
      ∷ relayed p (PakeMsg.reply pb mac_b)
      ∷ [])

  abbrev awaiting : Inbox → HostWorld
  awaiting inbox = calm t inbox (ok (channel_open ∷ received d ∷ []) ∷ []) (some true ∷ []) n []

  respond-calm :
      (second : Str)
      → relay_of p (some (ServerToHost.relay second)) ≡ Relay.msg (PakeMsg.confirm mac_a sealed)
      → (m : ℕ) × (respond p cfg st pa (awaiting (ok (some (ServerToHost.relay second)) ∷ []))
          ≡ ((ok (session (begun who)), renewed p cfg m), calm t [] [] [] (m + 1) spoken))
  unfolding respond draw send_relay link_send recv_relay link_recv on_confirm
  respond-calm second e2 =
      let polls : List (Result (List PeerEvent) TransportError) =
        ok (channel_open ∷ received d ∷ []) ∷ [] in
      let (m, st', counted) =
        count_guess-calm p cfg t (n + 1) st (ok (some (ServerToHost.relay second)) ∷ []) polls
          (some true ∷ []) [] in
      let trace : Trace = relayed p (PakeMsg.reply pb mac_b) ∷ [] in
      let rest =
        confirm_code-calm p cfg t m sk remote d h who known read good same_version offer answer
          sealed time made takes output mac_a st' trace confirmed opened in
      (m, ground (arith, responds, counted, e2, rest))

  -- When the limiter lets the attempt pass, the viewer starts the exchange and confirms it with the
  -- right MAC and a sealed offer, then greets with a `Hello` that is verified, and the user agrees at
  -- the first question, and nothing fails meanwhile, the attempt gives a session with that viewer,
  -- the code is a fresh one and the limiter is reset; and these are the messages that it has sent.
  pub attempt-calm :
      (first second : Str)
      → check st.limiter t ≡ ok tt
      → relay_of p (some (ServerToHost.relay first)) ≡ Relay.msg (PakeMsg.start pa)
      → relay_of p (some (ServerToHost.relay second)) ≡ Relay.msg (PakeMsg.confirm mac_a sealed)
      → (m : ℕ) × (attempt p cfg st (
            awaiting
              (ok (some (ServerToHost.relay first)) ∷ ok (some (ServerToHost.relay second)) ∷ []))
          ≡ ((ok (session (begun who)), renewed p cfg m), calm t [] [] [] (m + 1) spoken))
  unfolding attempt now recv_relay link_recv on_start
  attempt-calm first second passed e1 e2 =
      let (m, rest) = respond-calm second e2 in (m, ground (arith, passed, e1, rest))
