-- ===== src/Host/Session/Attempt/Agreed.antt =====
-- A session that follows a confirmation can be trusted.
use simple_remote.Base.{
  ◌≡◌, refl, inl, inr, ok, List, arith, Result-cases, Option-cases, ap, sym, ◌∙◌, subst, ◌≢◌, ◌⊎◌,
}
use simple_remote.Base.Text.{Bytes, Str, utf8}
use simple_remote.Protocol.PakeMsg.{PakeMsg}
use simple_remote.Auth.Pake.{host_confirm}
use simple_remote.Auth.Sealed.{SessionKeys, host_side}
use simple_remote.Transport.Channel
use simple_remote.Transport.Channel.{Channel, close, inbox, data_of}
use simple_remote.Host.Attempts.{record_success}
use simple_remote.Host.Session.Types.{
  HostConfig, HostState, HostSession, Served, ServeOutcome, session, failed, viewer_left,
  AttemptFailure,
}
use simple_remote.Host.Session.Attempt.Inputs.{send_relay-IsKept, inbox-new}
use simple_remote.Host.Session.Relay.{Relay, send_relay, kicked, reject_relay}
use simple_remote.Host.Session.Approval.{HostWorld}
use simple_remote.Host.Session.Handshake.{handshake}
use simple_remote.Host.Session.Handshake.Trusted.{Trusted, handshake-Trusted}
use simple_remote.Host.Session.Attempt.{
  first_sealed, opened_text, finish, negotiate, confirm_code, on_confirm,
}
use simple_remote.Platform.{Platform}

pub kicked-failed :
    (f : AttemptFailure) (w : HostWorld) (s : HostSession) → (kicked f w).0 ≢ ok (session s)
unfolding kicked
kicked-failed f w s e = ground arith

session-cases :
    (o : ServeOutcome)
    → ((s : HostSession) × (o ≡ session s))
      ⊎ (((f : AttemptFailure) × (o ≡ failed f)) ⊎ (o ≡ viewer_left))
session-cases (session s) = inl (s, refl)
session-cases (failed f) = inr (inl (f, refl))
session-cases viewer_left = inr (inr refl)

module _ (p : Platform) (cfg : HostConfig) where
  pub reject_relay-failed :
      (f : AttemptFailure) (w : HostWorld) (s : HostSession)
      → (reject_relay p f w).0 ≢ ok (session s)
  unfolding reject_relay
  reject_relay-failed f w s e =
      let (r, w1) = send_relay p PakeMsg.rejected w in
      elim (Result-cases r) [
        | inl (x, unsent) ↦ ground (arith, unsent)
        | inr (x, sent) ↦ ground (arith, sent, kicked-failed f w1 s)
      ]

  -- If this is how an attempt ends and it gives a session, the session can be trusted, with what
  -- the peer was to say.
  abbrev Begins : SessionKeys → List Bytes → Served × HostWorld → Type 0
  Begins sk messages out =
      (s : HostSession) → out.0.0 ≡ ok (session s) → Trusted p cfg sk messages s out.0.1 out.1

  finish-Begins :
      (sk : SessionKeys) (st : HostState) (ch : Channel) (w : HostWorld)
      → Begins sk (inbox ch w) (finish p cfg sk st ch w)
  unfolding finish
  finish-Begins sk st ch w s e =
      let ((outcome, st'), w') = handshake p cfg sk st ch w in
      elim (session-cases outcome) [
        | inl (other, same) ↦
            let out : finish p cfg sk st ch w ≡ ((ok (session other), st'), w') =
              ground (arith, same) in
            let is_s : other ≡ s = ground (arith, same) in
            subst (λ o. Trusted p cfg sk (inbox ch w) s o.0.1 o.1) (sym out)
              (handshake-Trusted p cfg sk st ch w s (same ∙ ap session is_s))
        | inr (inl (f, same)) ↦ absurd (ground (arith, same, kicked-failed f w' s))
        | inr (inr same) ↦ absurd (ground (arith, same))
      ]

  negotiate-Begins :
      (sk : SessionKeys) (st : HostState) (offer : Str) (w : HostWorld)
      → Begins sk (data_of w.polls) (negotiate p cfg sk st offer w)
  unfolding negotiate
  negotiate-Begins sk st offer w s e = elim (Result-cases (p.peer_new cfg.bind_ips)) [
    | inl (x, none_made) ↦
        absurd (ground (arith, none_made, kicked-failed AttemptFailure.transport w s))
    | inr (x, made) ↦ elim (Result-cases (p.accept_offer offer)) [
      | inl (y, bad) ↦
          absurd (ground (arith, made, bad, reject_relay-failed AttemptFailure.malformed w s))
      | inr (answer, good) ↦
          let reply = PakeMsg.answer (first_sealed p.aead (host_side sk).0 (utf8 answer)) in
          let (r, w1) = send_relay p reply w in
          elim (Result-cases r) [
            | inl (z, unsent) ↦ absurd (ground (arith, made, good, unsent))
            | inr (z, sent) ↦
                let out : negotiate p cfg sk st offer w ≡ finish p cfg sk st Channel.new w1 =
                  ground (arith, made, good, sent) in
                let kept : inbox Channel.new w1 ≡ data_of w.polls =
                  inbox-new w1 ∙ ap data_of (send_relay-IsKept p reply w).polls in
                subst (λ o. Trusted p cfg sk (data_of w.polls) s o.0.1 o.1) (sym out)
                  (subst (λ l. Begins sk l (finish p cfg sk st Channel.new w1)) kept
                    (finish-Begins sk st Channel.new w1) s (ap (λ o. o.0.0) (sym out) ∙ e))
          ]
    ]
  ]

  -- The viewer confirmed with this MAC of this exchange, under the keys of the session.
  abbrev Agreed : p.pake_lib.Output → Bytes → List Bytes → Served × HostWorld → Type 0
  Agreed output mac_a messages out =
      (s : HostSession)
      → out.0.0 ≡ ok (session s)
      → (sk : SessionKeys) × (host_confirm p.pake_lib output mac_a ≡ ok sk)
        × Trusted p cfg sk messages s out.0.1 out.1

  confirm_code-Agreed :
      (output : p.pake_lib.Output) (st : HostState) (mac_a sealed : Bytes) (w : HostWorld)
      → Agreed output mac_a (data_of w.polls) (confirm_code p cfg output st mac_a sealed w)
  unfolding confirm_code
  confirm_code-Agreed output st mac_a sealed w s e =
      elim (Result-cases (host_confirm p.pake_lib output mac_a)) [
        | inl (x, bad) ↦
            absurd (ground (arith, bad, reject_relay-failed AttemptFailure.wrong_code w s))
        | inr (sk, good) ↦
            let st' : HostState = record st { limiter = record_success st.limiter } in
            elim (Option-cases (opened_text p.aead (host_side sk).1 sealed)) [
              | inl shut ↦
                  absurd
                    (ground (arith, good, shut, reject_relay-failed AttemptFailure.malformed w s))
              | inr (offer, opened) ↦
                  let out : confirm_code p cfg output st mac_a sealed w
                      ≡ negotiate p cfg sk st' offer w =
                    ground (arith, good, opened) in
                  (
                    sk,
                    good,
                    subst (λ o. Trusted p cfg sk (data_of w.polls) s o.0.1 o.1) (sym out)
                        (negotiate-Begins sk st' offer w s (ap (λ o. o.0.0) (sym out) ∙ e)),
                  )
            ]
      ]

  pub on_confirm-Agreed :
      (output : p.pake_lib.Output) (st : HostState) (r : Relay) (w : HostWorld) (s : HostSession)
      → (on_confirm p cfg output st r w).0.0 ≡ ok (session s)
      → (mac_a : Bytes) × (sealed : Bytes) × (r ≡ Relay.msg (PakeMsg.confirm mac_a sealed))
        × (sk : SessionKeys) × (host_confirm p.pake_lib output mac_a ≡ ok sk)
        × Trusted p cfg sk
            (data_of w.polls)
            s
            (on_confirm p cfg output st r w).0.1
            (on_confirm p cfg output st r w).1
  unfolding on_confirm
  on_confirm-Agreed output st (Relay.msg (PakeMsg.confirm mac_a sealed)) w s e =
      let agreed = confirm_code-Agreed output st mac_a sealed w s e in
      (mac_a, sealed, refl, agreed.0, agreed.1, agreed.2)
  on_confirm-Agreed output st (Relay.msg _) w s e =
      absurd (reject_relay-failed AttemptFailure.malformed w s e)
  on_confirm-Agreed output st Relay.malformed w s e =
      absurd (reject_relay-failed AttemptFailure.malformed w s e)
  on_confirm-Agreed output st Relay.left w s e = absurd (ground arith)
  on_confirm-Agreed output st Relay.timed_out w s e =
      absurd (kicked-failed AttemptFailure.no_confirm w s e)
