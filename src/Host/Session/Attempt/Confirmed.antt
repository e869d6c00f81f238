-- ===== src/Host/Session/Attempt/Confirmed.antt =====
-- No session without the code, the viewer's identity and the user's consent.
use simple_remote.Base.{
  ℕ, ◌≡◌, refl, inl, inr, ok, some, Option, List, ◌∷◌, Result, arith, Result-cases, ap, sym, ◌∙◌,
  subst,
}
use simple_remote.Base.Text.{Bytes, Str}
use simple_remote.Protocol.{pake}
use simple_remote.Protocol.PakeMsg.{PakeMsg}
use simple_remote.Auth.Pake.{host_respond, host_confirm}
use simple_remote.Auth.Sealed.{SessionKeys}
use simple_remote.Protocol.Signaling.{ServerToHost}
use simple_remote.Transport.Interface.{LinkError}
use simple_remote.Transport.World.{now, draw}
use simple_remote.Transport.Channel.{data_of}
use simple_remote.Host.Attempts.{check}
use simple_remote.Host.Session.Types.{
  HostConfig, HostState, HostSession, Served, session, AttemptFailure,
}
use simple_remote.Host.Session.Attempt.Inputs.{
  now-IsKept, draw-IsKept, send_relay-IsKept, count_guess-IsKept, recv_relay-polls, heard_relay,
}
use simple_remote.Host.Session.Relay.{Relay, relay_of, send_relay, recv_relay}
use simple_remote.Host.Session.Approval.{HostWorld}
use simple_remote.Host.Session.Handshake.Trusted.{Trusted}
use simple_remote.Host.Session.Attempt.{
  on_confirm, count_guess, respond, on_start, attempt, retry_ms,
}
use simple_remote.Host.Session.Attempt.Agreed.{
  kicked-failed, reject_relay-failed, on_confirm-Agreed,
}
use simple_remote.Platform.{Platform}

abbrev Arrivals : Type 0
Arrivals = List (Result (Option ServerToHost) LinkError)

module _ (p : Platform) (cfg : HostConfig) where
  -- What the relayed text says
  abbrev pub Says : Str → PakeMsg → Type 0
  Says text m = relay_of p (some (ServerToHost.relay text)) ≡ Relay.msg m

  -- What follows this `Start`, when these are still to come from the link and from the peer: the
  -- host's part of the exchange for its code, the viewer's confirmation on the link, and what the
  -- handshake under the keys of the exchange has checked.
  abbrev pub Answered :
      HostState → Bytes → Arrivals → List Bytes → HostSession → Served × HostWorld → Type 0
  Answered st pa coming messages s out =
      (n : ℕ) × (output : p.pake_lib.Output) × (pb : Bytes) × (mac_b : Bytes) × (host_respond
          p.pake_lib (p.fresh_bytes n) st.code cfg.host_id pa
        ≡ ok (output, pb, mac_b))
      × (text : Str) × (more : Arrivals) × (coming ≡ ok (some (ServerToHost.relay text)) ∷ more)
      × (mac_a : Bytes) × (sealed : Bytes) × Says text (PakeMsg.confirm mac_a sealed)
      × (sk : SessionKeys) × (host_confirm p.pake_lib output mac_a ≡ ok sk)
      × Trusted p cfg sk messages s out.0.1 out.1

  -- The first message on the link was the viewer's `Start`, and it was answered so.
  abbrev pub Earned : HostState → HostWorld → HostSession → Served × HostWorld → Type 0
  Earned st w s out =
      (text : Str) × (more : Arrivals) × (w.arrivals ≡ ok (some (ServerToHost.relay text)) ∷ more)
      × (pa : Bytes) × Says text (PakeMsg.start pa)
      × Answered st pa more (data_of w.polls) s out

  respond-Answered :
      (st : HostState) (pa : Bytes) (w : HostWorld) (s : HostSession)
      → (respond p cfg st pa w).0.0 ≡ ok (session s)
      → Answered st pa w.arrivals (data_of w.polls) s (respond p cfg st pa w)
  unfolding respond
  respond-Answered st pa w s e =
      let (n, w1) = draw w in
      elim (Result-cases (host_respond p.pake_lib (p.fresh_bytes n) st.code cfg.host_id pa)) [
        | inl (x, bad) ↦
            absurd (ground (arith, bad, reject_relay-failed p cfg AttemptFailure.malformed w1 s))
        | inr ((output, pb, mac_b), good) ↦
            let (st', w2) = count_guess p cfg st w1 in
            let (r, w3) = send_relay p (PakeMsg.reply pb mac_b) w2 in
            elim (Result-cases r) [
              | inl (x, unsent) ↦ absurd (ground (arith, good, unsent))
              | inr (x, sent) ↦
                  let limit = cfg.timeouts.signaling_step in
                  let (got, w4) = recv_relay p limit w3 in
                  elim (Result-cases got) [
                    | inl (y, lost) ↦ absurd (ground (arith, good, sent, lost))
                    | inr (m, heard) ↦
                        let out : respond p cfg st pa w ≡ on_confirm p cfg output st' m w4 =
                          ground (arith, good, sent, heard) in
                        let (mac_a, sealed, is_confirm, sk, confirmed, trusted) =
                          on_confirm-Agreed p cfg output st' m w4 s
                            (ap (λ o. o.0.0) (sym out) ∙ e) in
                        let kept1 = draw-IsKept w in
                        let kept2 = count_guess-IsKept p cfg st w1 in
                        let kept3 = send_relay-IsKept p (PakeMsg.reply pb mac_b) w2 in
                        let (text, read, came) =
                          heard_relay p limit w3 (PakeMsg.confirm mac_a sealed)
                            (heard ∙ ap ok is_confirm) in
                        let polls : w4.polls ≡ w.polls =
                          recv_relay-polls p limit w3 ∙ kept3.polls ∙ kept2.polls ∙ kept1.polls in
                        (
                          n,
                          output,
                          pb,
                          mac_b,
                          good,
                          text,
                          w4.arrivals,
                          sym (kept3.arrivals ∙ kept2.arrivals ∙ kept1.arrivals) ∙ came,
                          mac_a,
                          sealed,
                          read,
                          sk,
                          confirmed,
                          subst
                              (λ l.
                                Trusted p cfg sk (data_of l) s (respond p cfg st pa w).0.1
                                  (respond p cfg st pa w).1)
                              polls
                              (subst (λ o. Trusted p cfg sk (data_of w4.polls) s o.0.1 o.1)
                                (sym out) trusted),
                        )
                  ]
            ]
      ]

  on_start-Answered :
      (st : HostState) (r : Relay) (w : HostWorld) (s : HostSession)
      → (on_start p cfg st r w).0.0 ≡ ok (session s)
      → (pa : Bytes) × (r ≡ Relay.msg (PakeMsg.start pa))
        × Answered st pa w.arrivals (data_of w.polls) s (on_start p cfg st r w)
  unfolding on_start
  on_start-Answered st (Relay.msg (PakeMsg.start pa)) w s e =
      (pa, refl, respond-Answered st pa w s e)
  on_start-Answered st (Relay.msg _) w s e =
      absurd (reject_relay-failed p cfg AttemptFailure.malformed w s e)
  on_start-Answered st Relay.malformed w s e =
      absurd (reject_relay-failed p cfg AttemptFailure.malformed w s e)
  on_start-Answered st Relay.left w s e = absurd (ground arith)
  on_start-Answered st Relay.timed_out w s e =
      absurd (kicked-failed (AttemptFailure.timeout pake) w s e)

  -- If an attempt gives a session, then the limiter let it pass; the first two messages on the link
  -- were the viewer's `Start` and its `Confirm`, whose MAC shows, in the exchange that the host has
  -- answered for the code that it had at the start, that the viewer knows this code; the first
  -- message from the peer was a `Hello` that was verified under the keys of this exchange and speaks
  -- the host's version; the last that the host did was to ask the user about this viewer's name and
  -- fingerprint, to get a yes, and to send `Accepted`; and the code is the one drawn after that.
  pub attempt-Earned :
      (st : HostState) (w : HostWorld) (s : HostSession)
      → (attempt p cfg st w).0.0 ≡ ok (session s)
      → (check st.limiter (now w).0 ≡ ok tt) × Earned st w s (attempt p cfg st w)
  unfolding attempt
  attempt-Earned st w s e =
      let (t, w1) = now w in
      elim (Result-cases (check st.limiter t)) [
        | inl (wait, early) ↦
            let (r, w2) = send_relay p (PakeMsg.retry_after (retry_ms wait)) w1 in
            elim (Result-cases r) [
              | inl (x, unsent) ↦ absurd (ground (arith, early, unsent))
              | inr (x, sent) ↦
                  absurd
                    (ground (arith, early, sent, kicked-failed AttemptFailure.wait_required w2 s))
            ]
        | inr (x, passed) ↦
            let limit = cfg.timeouts.signaling_step in
            let (got, w2) = recv_relay p limit w1 in
            elim (Result-cases got) [
              | inl (y, lost) ↦ absurd (ground (arith, passed, lost))
              | inr (m, heard) ↦
                  let out : attempt p cfg st w ≡ on_start p cfg st m w2 =
                    ground (arith, passed, heard) in
                  let (pa, is_start, answered) =
                    on_start-Answered st m w2 s (ap (λ o. o.0.0) (sym out) ∙ e) in
                  let kept = now-IsKept w in
                  let (text, read, came) =
                    heard_relay p limit w1 (PakeMsg.start pa) (heard ∙ ap ok is_start) in
                  (
                    passed,
                    (
                      text,
                      w2.arrivals,
                      sym kept.arrivals ∙ came,
                      pa,
                      read,
                      subst (λ l. Answered st pa w2.arrivals (data_of l) s (attempt p cfg st w))
                          (recv_relay-polls p limit w1 ∙ kept.polls)
                          (subst (Answered st pa w2.arrivals (data_of w2.polls) s) (sym out)
                            answered),
                    ),
                  )
            ]
      ]
