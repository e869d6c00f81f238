-- ===== src/Viewer/Connect/Accepted.antt =====
-- What the viewer has checked when its handshake succeeds.
use simple_remote.Base.{
  ◌+◌, ◌≡◌, refl, inl, inr, some, List, ◌∷◌, ◌++◌, subst, Result, ok, err, arith, Result-cases,
  Option-cases, ap, sym, ◌∙◌,
}
use simple_remote.Base.Text.{Bytes, Str, utf8}
use simple_remote.Protocol.{Timeouts, Stage, Duration, Instant, decision, hello, answer}
use simple_remote.Protocol.Control
use simple_remote.Protocol.Control.{Control, Hello, accepted, Decision, RejectReason, decode}
use simple_remote.Protocol.PakeMsg
use simple_remote.Protocol.PakeMsg.{PakeMsg}
use simple_remote.Protocol.Signaling.{ServerToViewer, ViewerToServer}
use simple_remote.Auth.Identity.{Role, DeviceKeys, PeerIdentity, make_hello, verify_hello}
use simple_remote.Auth.Sealed.{SessionKeys, viewer_side}
use simple_remote.Transport.Interface.{TransportError, LinkError}
use simple_remote.Transport.World.{World, now, link_send}
use simple_remote.Transport.World.Polls.{link_send-polls, link_recv-polls, peer_send-polls}
use simple_remote.Transport.Channel.Ends.{now-polls}
use simple_remote.Transport.Channel.Queue.{Delivers, next-Delivers}
use simple_remote.Transport.Channel.Opening.{wait_open-inbox}
use simple_remote.Transport.Channel
use simple_remote.Transport.Channel.{Channel, Opened, Next, next, inbox, data_of, wait_open}
use simple_remote.Host.Session.Attempt.{first_sealed}
use simple_remote.Viewer.Connect.{
  on_decision, on_hello, await_decision, exchange_hello, on_open, on_answer, use_answer, handshake,
  control_of, next_control, send_relay, recv_relay,
}
use simple_remote.Platform.{Platform}

-- The first message that the peer gave is a `Hello`, bound to these keys and to both ends of the
-- connection, with which the host has shown that it is this device; the second one is the host's
-- decision, and it is `Accepted`.
abbrev pub Heard : Platform → SessionKeys → PeerIdentity → List Bytes → Type 0
Heard p sk who messages =
    (first : Bytes) × (second : Bytes) × (rest : List Bytes) × (messages ≡ first ∷ second ∷ rest)
    × (h : Hello) × (remote : Bytes) × (decode p.control_codec first ≡ ok (Control.hello h))
    × (p.remote_fingerprint ≡ some remote)
    × (verify_hello p.ed25519 h Role.host sk.hello_binding remote p.local_fingerprint ≡ ok who)
    × (decode p.control_codec second ≡ ok (Control.decision accepted))

on_decision-accepted :
    (who who' : PeerIdentity) (m : Control)
    → on_decision who m ≡ ok who'
    → (m ≡ Control.decision accepted) × (who ≡ who')
unfolding on_decision
on_decision-accepted who who' (Control.decision accepted) e = (refl, ground arith)
on_decision-accepted who who'
      (Control.decision (Decision.rejected (RejectReason.version_mismatch n))) e =
    absurd (ground arith)
on_decision-accepted who who' (Control.decision (Decision.rejected _)) e = absurd (ground arith)
on_decision-accepted who who' _ e = absurd (ground arith)

abbrev ViewerWorld : Type 0
ViewerWorld = World ServerToViewer ViewerToServer

prepend :
    {before again after rest : List Bytes} {d : Bytes}
    → before ≡ again
    → again ≡ d ∷ after
    → after ≡ rest
    → before ≡ d ∷ rest
prepend {d = d} same queue later = same ∙ queue ∙ ap (λ l. d ∷ l) later

control_of-msg :
    (stage : Stage) (r : Result Next TransportError) (m : Control)
    → control_of stage r ≡ ok m
    → r ≡ ok (Next.msg m)
unfolding control_of
control_of-msg stage (ok (Next.msg m')) m e = ground arith
control_of-msg stage (ok Next.malformed) m e = absurd (ground arith)
control_of-msg stage (ok Next.closed) m e = absurd (ground arith)
control_of-msg stage (ok Next.timed_out) m e = absurd (ground arith)
control_of-msg stage (err x) m e = absurd (ground arith)

-- The next message of the peer
next_control_sound :
    (p : Platform) (deadline : Instant) (stage : Stage) (ch : Channel) (w : ViewerWorld)
    (m : Control)
    → (next_control p deadline stage ch w).0.0 ≡ ok m
    → (d : Bytes) × (decode p.control_codec d ≡ ok m)
      × (inbox ch w
          ≡ d
            ∷ inbox (next_control p deadline stage ch w).0.1 (next_control p deadline stage ch w).1)
unfolding next_control
next_control_sound p deadline stage ch w m e =
    let ((r, ch'), w') = next p.control_codec deadline ch w in
    let is_msg = control_of-msg stage r m e in
    subst (λ x. Delivers p.control_codec deadline (inbox ch w) x ch' w'.clock (inbox ch' w')) is_msg
      (next-Delivers p.control_codec deadline ch w)

-- The relays leave alone what the peer will give.
pub send_relay-polls :
    (p : Platform) (m : PakeMsg) (w : ViewerWorld) → (send_relay p m w).1.polls ≡ w.polls
unfolding send_relay
send_relay-polls p m w =
    let text = ViewerToServer.relay (p.hex.to_wire (PakeMsg.encode p.pake_codec m)) in
    let (r, w1) = link_send text w in
    let kept = link_send-polls text w in
    elim (Result-cases r) [
      | inr (x, sent) ↦ ground (arith, sent, kept)
      | inl (LinkError.closed c, unsent) ↦ ground (arith, unsent, kept)
      | inl (LinkError.http c, unsent) ↦ ground (arith, unsent, kept)
      | inl (LinkError.insecure_url, unsent) ↦ ground (arith, unsent, kept)
      | inl (LinkError.io c, unsent) ↦ ground (arith, unsent, kept)
      | inl (LinkError.protocol, unsent) ↦ ground (arith, unsent, kept)
    ]

pub recv_relay-polls :
    (p : Platform) (limit : Duration) (stage : Stage) (w : ViewerWorld)
    → (recv_relay p limit stage w).1.polls ≡ w.polls
unfolding recv_relay
recv_relay-polls p limit stage w = ground (arith, link_recv-polls limit w)

module _ (p : Platform) (keys : DeviceKeys) (t : Timeouts) where
  on_hello_sound :
      (sk : SessionKeys) (remote : Bytes) (m : Control) (who : PeerIdentity)
      → on_hello p keys t sk remote m ≡ ok who
      → (h : Hello) × (m ≡ Control.hello h)
        × (verify_hello p.ed25519 h Role.host sk.hello_binding remote p.local_fingerprint ≡ ok who)
  unfolding on_hello
  on_hello_sound sk remote (Control.hello h) who e = (h, refl, ground arith)
  on_hello_sound sk remote _ who e = absurd (ground arith)

  await_decision_sound :
      (who who' : PeerIdentity) (ch : Channel) (w : ViewerWorld)
      → (await_decision p keys t who ch w).0.0 ≡ ok who'
      → (who ≡ who')
        × (d : Bytes) × (rest : List Bytes) × (inbox ch w ≡ d ∷ rest)
        × (decode p.control_codec d ≡ ok (Control.decision accepted))
  unfolding await_decision
  await_decision_sound who who' ch w e =
      let (at, w1) = now w in
      let ((r, ch'), w2) = next_control p (at + t.approval + t.signaling_step) decision ch w1 in
      elim (Result-cases r) [
        | inl (x, lost) ↦ absurd (ground (arith, lost))
        | inr (m, got) ↦
            let said : on_decision who m ≡ ok who' = ground (arith, got) in
            let (is_accepted, same) = on_decision-accepted who who' m said in
            let (d, read, queue) =
              next_control_sound p (at + t.approval + t.signaling_step) decision ch w1 m got in
            (
              same,
              d,
              inbox ch' w2,
              ap (λ l. ch.pending ++ data_of l) (sym (now-polls w)) ∙ queue,
              read ∙ ap ok is_accepted,
            )
      ]

  exchange_hello_sound :
      (sk : SessionKeys) (remote : Bytes) (ch : Channel) (w : ViewerWorld) (who : PeerIdentity)
      → p.remote_fingerprint ≡ some remote
      → (exchange_hello p keys t sk remote ch w).0.0 ≡ ok who
      → Heard p sk who (inbox ch w)
  unfolding exchange_hello Channel.send
  exchange_hello_sound sk remote ch w who known e =
      let said =
        Control.hello
          (make_hello p.ed25519 keys Role.viewer sk.hello_binding p.local_fingerprint remote) in
      let (s, w1) = Channel.send p.control_codec said w in
      let (at, w2) = now w1 in
      let ((r, ch'), w3) = next_control p (at + t.signaling_step) hello ch w2 in
      let polls : w2.polls ≡ w.polls =
        now-polls w1 ∙ peer_send-polls (Control.encode p.control_codec said) w in
      elim (Result-cases s) [
        | inl (x, unsent) ↦ absurd (ground (arith, unsent))
        | inr (x, sent) ↦ elim (Result-cases r) [
          | inl (y, lost) ↦ absurd (ground (arith, sent, lost))
          | inr (m, got) ↦ elim (Result-cases (on_hello p keys t sk remote m)) [
            | inl (z, bad) ↦ absurd (ground (arith, sent, got, bad))
            | inr (found, good) ↦
                let out : exchange_hello p keys t sk remote ch w
                    ≡ await_decision p keys t found ch' w3 =
                  ground (arith, sent, got, good) in
                let (same, second, rest, later, decided) =
                  await_decision_sound found who ch' w3 (ap (λ o. o.0.0) (sym out) ∙ e) in
                let (h, is_hello, verified) = on_hello_sound sk remote m found good in
                let (first, read, queue) =
                  next_control_sound p (at + t.signaling_step) hello ch w2 m got in
                (
                  first,
                  second,
                  rest,
                  prepend {rest = second ∷ rest} (ap (λ l. ch.pending ++ data_of l) (sym polls))
                      queue later,
                  h,
                  remote,
                  read ∙ ap ok is_hello,
                  known,
                  verified ∙ ap ok same,
                  decided,
                )
          ]
        ]
      ]

  on_open_sound :
      (sk : SessionKeys) (r : Result Opened TransportError) (ch : Channel) (w : ViewerWorld)
      (who : PeerIdentity)
      → (on_open p keys t sk (r, ch) w).0.0 ≡ ok who
      → Heard p sk who (inbox ch w)
  unfolding on_open
  on_open_sound sk (ok Opened.ready) ch w who e = elim (Option-cases p.remote_fingerprint) [
    | inl unknown ↦ absurd (ground (arith, unknown))
    | inr (remote, known) ↦
        let out : on_open p keys t sk (ok Opened.ready, ch) w
            ≡ exchange_hello p keys t sk remote ch w =
          ground (arith, known) in
        exchange_hello_sound sk remote ch w who known (ap (λ o. o.0.0) (sym out) ∙ e)
  ]
  on_open_sound sk (ok _) ch w who e = absurd (ground arith)
  on_open_sound sk (err _) ch w who e = absurd (ground arith)

  use_answer_sound :
      (sk : SessionKeys) (sdp : Str) (ch : Channel) (w : ViewerWorld) (who : PeerIdentity)
      → (use_answer p keys t sk sdp ch w).0.0 ≡ ok who
      → Heard p sk who (inbox ch w)
  unfolding use_answer
  use_answer_sound sk sdp ch w who e =
      let (at, w1) = now w in
      let ((r, ch'), w2) = wait_open (at + t.connect) ch w1 in
      let kept : inbox ch' w2 ≡ inbox ch w =
        wait_open-inbox (at + t.connect) ch w1 ∙ ap (λ l. ch.pending ++ data_of l) (now-polls w) in
      elim (Result-cases (p.accept_answer sdp)) [
        | inl (x, bad) ↦ absurd (ground (arith, bad))
        | inr (x, good) ↦
            let out : use_answer p keys t sk sdp ch w ≡ on_open p keys t sk (r, ch') w2 =
              ground (arith, good) in
            subst (Heard p sk who) kept
              (on_open_sound sk r ch' w2 who (ap (λ o. o.0.0) (sym out) ∙ e))
      ]

  -- If the handshake succeeds, the peer's certificate is known; the first message of the peer is the
  -- host's `Hello`, verified against this certificate for these keys, and is that of the identity
  -- returned; and the second is the host's decision `Accepted`.
  pub handshake_sound :
      (sk : SessionKeys) (mac_a : Bytes) (ch : Channel) (w : ViewerWorld) (who : PeerIdentity)
      → (handshake p keys t sk mac_a ch w).0.0 ≡ ok who
      → Heard p sk who (inbox ch w)
  unfolding handshake
  handshake_sound sk mac_a ch w who e = elim (Result-cases p.create_offer) [
    | inl (x, bad) ↦ absurd (ground (arith, bad))
    | inr (offer, made) ↦
        let told = PakeMsg.confirm mac_a (first_sealed p.aead (viewer_side sk).0 (utf8 offer)) in
        let (s, w1) = send_relay p told w in
        let (r, w2) = recv_relay p t.signaling_step answer w1 in
        elim (Result-cases s) [
          | inl (x, unsent) ↦ absurd (ground (arith, made, unsent))
          | inr (x, sent) ↦ elim (Result-cases r) [
            | inl (y, lost) ↦ absurd (ground (arith, made, sent, lost))
            | inr (m, got) ↦ elim (Result-cases (on_answer p keys t sk m)) [
              | inl (z, bad) ↦ absurd (ground (arith, made, sent, got, bad))
              | inr (sdp, good) ↦
                  let out : handshake p keys t sk mac_a ch w ≡ use_answer p keys t sk sdp ch w2 =
                    ground (arith, made, sent, got, good) in
                  let polls : w2.polls ≡ w.polls =
                    recv_relay-polls p t.signaling_step answer w1 ∙ send_relay-polls p told w in
                  subst (λ l. Heard p sk who (ch.pending ++ data_of l)) polls
                    (use_answer_sound sk sdp ch w2 who (ap (λ o. o.0.0) (sym out) ∙ e))
            ]
          ]
        ]
  ]
