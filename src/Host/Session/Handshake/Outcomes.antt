-- ===== src/Host/Session/Handshake/Outcomes.antt =====
-- What the handshake leaves alone.
use simple_remote.Base.{
  ◌≡◌, refl, Result, ok, err, arith, Result-cases, Option-cases, inl, inr, ◌+◌,
}
use simple_remote.Base.Text.{Bytes}
use simple_remote.Protocol.Control.{Control, Hello}
use simple_remote.Auth.Identity.{PeerIdentity, host, viewer, make_hello, verify_hello}
use simple_remote.Auth.Sealed.{SessionKeys}
use simple_remote.Transport.Interface.{TransportError}
use simple_remote.Transport.Channel.{Channel, Next, Opened, next, send}
use simple_remote.Transport.World.{now}
use simple_remote.Host.Session.Types.{HostConfig, HostState}
use simple_remote.Host.Session.Approval.{HostWorld, Approval, granted, broken, reject_decision}
use simple_remote.Host.Session.Handshake.{
  fail, accept, decide, ask_user, check_hello, on_hello, exchange_hello, on_open, handshake,
}
use simple_remote.Platform.{Platform}

module _ (p : Platform) (cfg : HostConfig) where
  accept-limiter :
      (who : PeerIdentity) (st : HostState) (ch : Channel) (w : HostWorld)
      → (accept p cfg who st ch w).0.1.limiter ≡ st.limiter
  unfolding accept fail
  accept-limiter who st ch w = ground arith

  decide-limiter :
      (who : PeerIdentity) (st : HostState) (a : Approval) (ch : Channel) (w : HostWorld)
      → (decide p cfg who st (a, ch) w).0.1.limiter ≡ st.limiter
  unfolding decide reject_decision fail
  decide-limiter who st granted ch w = accept-limiter who st ch w
  decide-limiter who st Approval.denied ch w = refl
  decide-limiter who st Approval.no_response ch w = refl
  decide-limiter who st (broken f) ch w = refl

  ask_user-limiter :
      (who : PeerIdentity) (st : HostState) (ch : Channel) (w : HostWorld)
      → (ask_user p cfg who st ch w).0.1.limiter ≡ st.limiter
  unfolding ask_user
  ask_user-limiter who st ch w = decide-limiter who st _ _ _

  check_hello-limiter :
      (sk : SessionKeys) (remote : Bytes) (h : Hello) (st : HostState) (ch : Channel)
      (w : HostWorld)
      → (check_hello p cfg sk remote h st ch w).0.1.limiter ≡ st.limiter
  unfolding check_hello reject_decision
  check_hello-limiter sk remote h st ch w =
      elim (Result-cases
        (verify_hello p.ed25519 h viewer sk.hello_binding remote p.local_fingerprint)) [
          | inl (x, e) ↦ ground (arith, e)
          | inr (who, e) ↦ ground (arith, e, ask_user-limiter who st ch w)
        ]

  on_hello-limiter :
      (sk : SessionKeys) (remote : Bytes) (st : HostState) (r : Result Next TransportError)
      (ch : Channel) (w : HostWorld)
      → (on_hello p cfg sk remote st (r, ch) w).0.1.limiter ≡ st.limiter
  unfolding on_hello fail
  on_hello-limiter sk remote st (ok (Next.msg (Control.hello h))) ch w =
      check_hello-limiter sk remote h st ch w
  on_hello-limiter sk remote st (ok (Next.msg _)) ch w = refl
  on_hello-limiter sk remote st (ok _) ch w = refl
  on_hello-limiter sk remote st (err _) ch w = refl

  exchange_hello-limiter :
      (sk : SessionKeys) (remote : Bytes) (st : HostState) (ch : Channel) (w : HostWorld)
      → (exchange_hello p cfg sk remote st ch w).0.1.limiter ≡ st.limiter
  unfolding exchange_hello fail
  exchange_hello-limiter sk remote st ch w =
      let mine = make_hello p.ed25519 cfg.keys host sk.hello_binding p.local_fingerprint remote in
      let said = Control.hello (record mine { protocol_version = cfg.protocol_version }) in
      let (r, w1) = send p.control_codec said w in
      let (t, w2) = now w1 in
      let ((got, ch'), w3) = next p.control_codec (t + cfg.timeouts.signaling_step) ch w2 in
      ground (arith, on_hello-limiter sk remote st got ch' w3)

  on_open-limiter :
      (sk : SessionKeys) (st : HostState) (r : Result Opened TransportError) (ch : Channel)
      (w : HostWorld)
      → (on_open p cfg sk st (r, ch) w).0.1.limiter ≡ st.limiter
  unfolding on_open fail
  on_open-limiter sk st (ok Opened.ready) ch w = elim (Option-cases p.remote_fingerprint) [
    | inl e ↦ ground (arith, e)
    | inr (remote, e) ↦ ground (arith, e, exchange_hello-limiter sk remote st ch w)
  ]
  on_open-limiter sk st (ok _) ch w = refl
  on_open-limiter sk st (err _) ch w = refl

  -- The handshake never changes the limiter.
  pub handshake-limiter :
      (sk : SessionKeys) (st : HostState) (ch : Channel) (w : HostWorld)
      → (handshake p cfg sk st ch w).0.1.limiter ≡ st.limiter
  unfolding handshake
  handshake-limiter sk st ch w = on_open-limiter sk st _ _ _
