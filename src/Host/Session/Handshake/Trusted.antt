-- ===== src/Host/Session/Handshake/Trusted.antt =====
-- What the host has checked when a session begins.
use simple_remote.Base.{
  ℕ, ◌+◌, ◌≡◌, refl, inl, inr, some, Result, ok, err, arith, ◌==◌, Result-cases, Option-cases,
  Bool-cases, ap, sym, ◌∙◌, subst, List, ◌∷◌, ◌++◌, true,
}
use simple_remote.Base.Text.{Bytes}
use simple_remote.Protocol.{Instant}
use simple_remote.Protocol.Control
use simple_remote.Protocol.Control.{Control, Hello, accepted}
use simple_remote.Protocol.Signaling.{HostToServer}
use simple_remote.Auth.Identity.{
  PeerIdentity, host, viewer, make_hello, verify_hello, key_fingerprint,
}
use simple_remote.Auth.Sealed.{SessionKeys}
use simple_remote.Transport.Interface.{TransportError}
use simple_remote.Transport.Channel.{Channel, Next, Opened, next, send, wait_open, inbox, data_of}
use simple_remote.Transport.Channel.Ends.{now-polls}
use simple_remote.Transport.Channel.Queue.{Delivers, next-Delivers}
use simple_remote.Transport.Channel.Opening.{wait_open-inbox}
use simple_remote.Transport.World.{Call, asked, peer_sent, now, draw, peer_send}
use simple_remote.Transport.World.Polls.{peer_send-polls}
use simple_remote.Host.Session.Types.{HostConfig, HostState, HostSession, session}
use simple_remote.Host.Session.Approval.{
  HostWorld, Approval, granted, broken, wait_approval, reject_decision,
}
use simple_remote.Host.Session.Approval.Ends.{wait_approval-granted}
use simple_remote.Host.Session.Handshake.{
  Shaken, fail, accept, decide, ask_user, check_hello, on_hello, exchange_hello, on_open, handshake,
}
use simple_remote.Platform.{Platform}

-- The last that the host did was to ask the user about this name and the fingerprint of this key; the
-- answer was yes; and then to send `Accepted`.
abbrev pub Approved : Platform → PeerIdentity → HostWorld → Type 0
Approved p who w' =
    (before : List (Call HostToServer)) × (w'.trace
      ≡ peer_sent (Control.encode p.control_codec (Control.decision accepted))
        ∷ asked who.name (key_fingerprint p.sha256 p.hex who.device_key) (some true)
        ∷ before)

-- The first of the viewer's messages is a `Hello`, bound to these keys and to both ends of the
-- connection, with which it has shown that it is this device; and it speaks the host's version.
abbrev pub Identified : Platform → HostConfig → SessionKeys → List Bytes → PeerIdentity → Type 0
Identified p cfg sk messages who =
    (first : Bytes) × (rest : List Bytes) × (messages ≡ first ∷ rest)
    × (h : Hello) × (remote : Bytes) × (Control.decode p.control_codec first ≡ ok (Control.hello h))
    × (p.remote_fingerprint ≡ some remote)
    × (verify_hello p.ed25519 h viewer sk.hello_binding remote p.local_fingerprint ≡ ok who)
    × (h.protocol_version ≡ cfg.protocol_version)

peer_send-trace : (b : Bytes) (w : HostWorld) → (peer_send b w).1.trace ≡ peer_sent b ∷ w.trace
unfolding peer_send
peer_send-trace b w = ground arith

module _ (p : Platform) (cfg : HostConfig) where
  -- The code is the one that was drawn last.
  abbrev pub Renewed : HostState → HostWorld → Type 0
  Renewed st' w' = (n : ℕ) × (st'.code ≡ p.fresh_code n) × (w'.draws ≡ n + 1)

  abbrev pub Begun : PeerIdentity → HostSession → Shaken × HostWorld → Type 0
  Begun who s out = (who ≡ s.viewer) × Approved p who out.1 × Renewed out.0.1 out.1

  accept-Begun :
      (who : PeerIdentity) (st : HostState) (ch : Channel) (w : HostWorld) (s : HostSession)
      (before : List (Call HostToServer))
      → w.trace
        ≡ asked who.name (key_fingerprint p.sha256 p.hex who.device_key) (some true) ∷ before
      → (accept p cfg who st ch w).0.0 ≡ session s
      → Begun who s (accept p cfg who st ch w)
  unfolding accept fail draw send
  accept-Begun who st ch w s before agreed e =
      let said = Control.encode p.control_codec (Control.decision accepted) in
      let (r, w1) = send p.control_codec (Control.decision accepted) w in
      let told : w1.trace ≡ peer_sent said ∷ w.trace = peer_send-trace said w in
      elim (Result-cases r) [
        | inl (x, unsent) ↦ absurd (ground (arith, unsent))
        | inr (x, sent) ↦
            let out : accept p cfg who st ch w ≡ (
              (
                session (record { viewer = who; ch = ch }),
                record st { code = p.fresh_code w1.draws },
              ),
              record w1 { draws = w1.draws + 1 },
            ) =
              ground (arith, sent) in
            (
              ground (arith, sent),
              (before, ap (λ o. o.1.trace) out ∙ told ∙ ap (λ l. peer_sent said ∷ l) agreed),
              (w1.draws, ap (λ o. o.0.1.code) out, ap (λ o. o.1.draws) out),
            )
      ]

  decide-granted :
      (who : PeerIdentity) (st : HostState) (a : Approval) (ch : Channel) (w : HostWorld)
      (s : HostSession)
      → (decide p cfg who st (a, ch) w).0.0 ≡ session s
      → (a ≡ granted) × (decide p cfg who st (a, ch) w ≡ accept p cfg who st ch w)
  unfolding decide reject_decision fail
  decide-granted who st granted ch w s e = (refl, refl)
  decide-granted who st Approval.denied ch w s e = absurd (ground arith)
  decide-granted who st Approval.no_response ch w s e = absurd (ground arith)
  decide-granted who st (broken f) ch w s e = absurd (ground arith)

  ask_user-Begun :
      (who : PeerIdentity) (st : HostState) (ch : Channel) (w : HostWorld) (s : HostSession)
      → (ask_user p cfg who st ch w).0.0 ≡ session s
      → Begun who s (ask_user p cfg who st ch w)
  unfolding ask_user
  ask_user-Begun who st ch w s e =
      let shown = key_fingerprint p.sha256 p.hex who.device_key in
      let ((a, ch'), w') =
        wait_approval p.control_codec who.name shown cfg.timeouts.approval ch w in
      let (agreed, out) = decide-granted who st a ch' w' s e in
      let (before, last) =
        wait_approval-granted p.control_codec who.name shown cfg.timeouts.approval ch w ch' w'
          (ap (λ x. ((x, ch'), w')) agreed) in
      subst (Begun who s) (sym out)
        (accept-Begun who st ch' w' s before last (ap (λ o. o.0.0) (sym out) ∙ e))

  -- What is known when a session has begun: these messages were still to come before.
  abbrev pub Trusted : SessionKeys → List Bytes → HostSession → HostState → HostWorld → Type 0
  Trusted sk messages s st' w' =
      Identified p cfg sk messages s.viewer × Approved p s.viewer w' × Renewed st' w'

  -- The same of how the handshake ends
  abbrev Trusts : SessionKeys → List Bytes → HostSession → Shaken × HostWorld → Type 0
  Trusts sk messages s out = Trusted sk messages s out.0.1 out.1

  check_hello-Trusted :
      (sk : SessionKeys) (remote first : Bytes) (rest : List Bytes) (h : Hello) (st : HostState)
      (ch : Channel) (w : HostWorld) (s : HostSession)
      → p.remote_fingerprint ≡ some remote
      → Control.decode p.control_codec first ≡ ok (Control.hello h)
      → (check_hello p cfg sk remote h st ch w).0.0 ≡ session s
      → Trusts sk (first ∷ rest) s (check_hello p cfg sk remote h st ch w)
  unfolding check_hello reject_decision
  check_hello-Trusted sk remote first rest h st ch w s known read e =
      elim (Result-cases
        (verify_hello p.ed25519 h viewer sk.hello_binding remote p.local_fingerprint)) [
          | inl (x, bad) ↦ absurd (ground (arith, bad))
          | inr (who, good) ↦ elim (Bool-cases (h.protocol_version == cfg.protocol_version)) [
            | inr other ↦ absurd (ground (arith, good, other))
            | inl same ↦
                let out : check_hello p cfg sk remote h st ch w ≡ ask_user p cfg who st ch w =
                  ground (arith, good, same) in
                let (is_who, approved, renewed) =
                  ask_user-Begun who st ch w s (ap (λ o. o.0.0) (sym out) ∙ e) in
                subst (Trusts sk (first ∷ rest) s) (sym out) (
                  (
                    first,
                    rest,
                    refl,
                    h,
                    remote,
                    read,
                    known,
                    good ∙ ap ok is_who,
                    ground (arith, same),
                  ),
                  subst (λ x. Approved p x (ask_user p cfg who st ch w).1) is_who approved,
                  renewed,
                )
          ]
        ]

  on_hello-Trusted :
      (sk : SessionKeys) (remote : Bytes) (st : HostState) (deadline : Instant)
      (r : Result Next TransportError) (messages : List Bytes) (ch : Channel) (w : HostWorld)
      (s : HostSession)
      → Delivers p.control_codec deadline messages r ch w.clock (inbox ch w)
      → p.remote_fingerprint ≡ some remote
      → (on_hello p cfg sk remote st (r, ch) w).0.0 ≡ session s
      → Trusts sk messages s (on_hello p cfg sk remote st (r, ch) w)
  unfolding on_hello fail
  on_hello-Trusted sk remote st deadline (ok (Next.msg (Control.hello h))) messages ch w s
        (first, read, queue) known e =
      subst (λ l. Trusts sk l s (check_hello p cfg sk remote h st ch w)) (sym queue)
        (check_hello-Trusted sk remote first (inbox ch w) h st ch w s known read e)
  on_hello-Trusted sk remote st deadline (ok (Next.msg _)) messages ch w s came known e =
      absurd (ground arith)
  on_hello-Trusted sk remote st deadline (ok _) messages ch w s came known e = absurd (ground arith)
  on_hello-Trusted sk remote st deadline (err _) messages ch w s came known e =
      absurd (ground arith)

  exchange_hello-Trusted :
      (sk : SessionKeys) (remote : Bytes) (st : HostState) (ch : Channel) (w : HostWorld)
      (s : HostSession)
      → p.remote_fingerprint ≡ some remote
      → (exchange_hello p cfg sk remote st ch w).0.0 ≡ session s
      → Trusts sk (inbox ch w) s (exchange_hello p cfg sk remote st ch w)
  unfolding exchange_hello fail send
  exchange_hello-Trusted sk remote st ch w s known e =
      let mine = make_hello p.ed25519 cfg.keys host sk.hello_binding p.local_fingerprint remote in
      let said = Control.hello (record mine { protocol_version = cfg.protocol_version }) in
      let (r, w1) = send p.control_codec said w in
      let (t, w2) = now w1 in
      let deadline = t + cfg.timeouts.signaling_step in
      let ((got, ch'), w3) = next p.control_codec deadline ch w2 in
      let polls : w2.polls ≡ w.polls =
        now-polls w1 ∙ peer_send-polls (Control.encode p.control_codec said) w in
      let came = next-Delivers p.control_codec deadline ch w2 in
      elim (Result-cases r) [
        | inl (x, unsent) ↦ absurd (ground (arith, unsent))
        | inr (x, sent) ↦
            let out : exchange_hello p cfg sk remote st ch w
                ≡ on_hello p cfg sk remote st (got, ch') w3 =
              ground (arith, sent) in
            subst
              (λ l. Trusts sk (ch.pending ++ data_of l) s (exchange_hello p cfg sk remote st ch w))
              polls
              (subst (Trusts sk (inbox ch w2) s) (sym out) (
                on_hello-Trusted sk remote st deadline got (inbox ch w2) ch' w3 s came known
                  (ap (λ o. o.0.0) (sym out) ∙ e)))
      ]

  on_open-Trusted :
      (sk : SessionKeys) (st : HostState) (r : Result Opened TransportError) (ch : Channel)
      (w : HostWorld) (s : HostSession)
      → (on_open p cfg sk st (r, ch) w).0.0 ≡ session s
      → Trusts sk (inbox ch w) s (on_open p cfg sk st (r, ch) w)
  unfolding on_open fail
  on_open-Trusted sk st (ok Opened.ready) ch w s e = elim (Option-cases p.remote_fingerprint) [
    | inl unknown ↦ absurd (ground (arith, unknown))
    | inr (remote, known) ↦
        let out : on_open p cfg sk st (ok Opened.ready, ch) w
            ≡ exchange_hello p cfg sk remote st ch w =
          ground (arith, known) in
        subst (Trusts sk (inbox ch w) s) (sym out)
          (exchange_hello-Trusted sk remote st ch w s known (ap (λ o. o.0.0) (sym out) ∙ e))
  ]
  on_open-Trusted sk st (ok _) ch w s e = absurd (ground arith)
  on_open-Trusted sk st (err _) ch w s e = absurd (ground arith)

  -- If the handshake gives a session, the peer's certificate is known; the first message that the
  -- viewer gave is its `Hello`, verified against that certificate, and it speaks the host's version;
  -- the last that the host did was to ask the user about this viewer's name and fingerprint, to get
  -- a yes, and to send `Accepted`; and the code is the one drawn after that.
  pub handshake-Trusted :
      (sk : SessionKeys) (st : HostState) (ch : Channel) (w : HostWorld) (s : HostSession)
      → (handshake p cfg sk st ch w).0.0 ≡ session s
      → Trusts sk (inbox ch w) s (handshake p cfg sk st ch w)
  unfolding handshake
  handshake-Trusted sk st ch w s e =
      let (t, w1) = now w in
      let ((r, ch'), w2) = wait_open (t + cfg.timeouts.connect) ch w1 in
      let kept : inbox ch' w2 ≡ inbox ch w =
        wait_open-inbox (t + cfg.timeouts.connect) ch w1
        ∙ ap (λ l. ch.pending ++ data_of l) (now-polls w) in
      subst (λ l. Trusts sk l s (on_open p cfg sk st (r, ch') w2)) kept
        (on_open-Trusted sk st r ch' w2 s e)
