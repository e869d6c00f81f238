-- ===== src/Host/Session/Attempt/Counted.antt =====
-- Every guess of the code is on record before the viewer can learn whether it was right.
use simple_remote.Base.{
  ℕ, ◌≡◌, refl, ◌⊎◌, inl, inr, true, false, List, [], ◌∷◌, ◌++◌, ok, err, All, Result-cases,
  Option-cases, Bool-cases, arith, sym, ap, ◌∙◌, subst,
}
use simple_remote.Base.Text.{Bytes, Str, utf8}
use simple_remote.Protocol.{Instant, pake}
use simple_remote.Protocol.PakeMsg
use simple_remote.Protocol.PakeMsg.{PakeMsg}
use simple_remote.Protocol.Signaling.{HostToServer}
use simple_remote.Auth.Pake.{host_respond, host_confirm}
use simple_remote.Auth.Sealed.{SessionKeys, host_side}
use simple_remote.Transport.World.{Call, link_sent, now, draw}
use simple_remote.Transport.World.Trace.{link_send-trace, link_recv-trace, now-trace, draw-trace}
use simple_remote.Transport.Channel
use simple_remote.Transport.Channel.{Channel}
use simple_remote.Host.Attempts.{check, record_failure, record_success}
use simple_remote.Host.Session.Types.{
  HostConfig, HostState, Served, AttemptFailure, malformed, timeout, wait_required, link, beside,
}
use simple_remote.Host.Session.Relay.{Relay, send_relay, recv_relay, kicked, reject_relay}
use simple_remote.Host.Session.Approval.{HostWorld}
use simple_remote.Host.Session.Handshake.Outcomes.{handshake-limiter}
use simple_remote.Host.Session.Attempt.{
  first_sealed, opened_text, finish, negotiate, confirm_code, on_confirm, count_guess, respond,
  on_start, attempt, retry_ms,
}
use simple_remote.Platform.{Platform}

-- The messages that say nothing of the code.
pub data IsSilent (p : Platform) : Call HostToServer → Type 0 where
  kick : IsSilent p (link_sent HostToServer.kick)
  rejected : IsSilent p (
      link_sent (HostToServer.relay (p.hex.to_wire (PakeMsg.encode p.pake_codec PakeMsg.rejected))))
  retry :
      (ms : ℕ)
      → IsSilent p (
          link_sent (
            HostToServer.relay
              (p.hex.to_wire (PakeMsg.encode p.pake_codec (PakeMsg.retry_after ms)))))

-- Between two moments only such messages were sent.
abbrev pub Silent : Platform → HostWorld → HostWorld → Type 0
Silent p w w' =
    (new : List (Call HostToServer)) × (w'.trace ≡ new ++ w.trace) × All (IsSilent p) new

-- The viewer has shown, in one exchange for the host's code, that it knows the code.
abbrev pub Confirmed : Platform → HostConfig → HostState → Type 0
Confirmed p cfg st =
    (n : ℕ) × (pa : Bytes) × (output : p.pake_lib.Output) × (pb : Bytes) × (mac_b : Bytes)
    × (mac_a : Bytes) × (sk : SessionKeys) × (host_respond p.pake_lib (p.fresh_bytes n) st.code
          cfg.host_id pa
        ≡ ok (output, pb, mac_b))
    × (host_confirm p.pake_lib output mac_a ≡ ok sk)

-- One more failure is on the limiter, and the code is replaced when it was the last one allowed.
abbrev pub Counts : Platform → HostState → HostState → Type 0
Counts p st st' =
    (t : Instant) × (st'.limiter ≡ (record_failure st.limiter t).1)
    × ((((record_failure st.limiter t).0.rotate_code ≡ false) × (st'.code ≡ st.code))
        ⊎ (((record_failure st.limiter t).0.rotate_code ≡ true)
            × (n : ℕ) × (st'.code ≡ p.fresh_code n)))

-- What an attempt does to the guard against guesses.
abbrev pub Guarded : Platform → HostConfig → HostState → HostWorld → Served × HostWorld → Type 0
Guarded p cfg st w out =
    ((out.0.1 ≡ st) × Silent p w out.1)
    ⊎ (Counts p st out.0.1
        ⊎ (Confirmed p cfg st
            × ((t : Instant) × (out.0.1.limiter ≡ record_success (record_failure st.limiter t).1))))

module _ (p : Platform) where
  kicked-trace :
      (f : AttemptFailure) (w : HostWorld)
      → (kicked f w).1.trace ≡ link_sent HostToServer.kick ∷ w.trace
  unfolding kicked
  kicked-trace f w = ground (arith, link_send-trace HostToServer.kick w)

  kicked-Silent :
      (f : AttemptFailure) (w w' : HostWorld) → w.trace ≡ w'.trace → Silent p w' (kicked f w).1
  kicked-Silent f w w' e = (
    link_sent HostToServer.kick ∷ [],
    kicked-trace f w ∙ ap (λ l. link_sent HostToServer.kick ∷ l) e,
    (kick, tt),
  )

  -- A silent message, and perhaps a kick after it.
  told-Silent :
      (m : PakeMsg) (f : AttemptFailure) (w w' out : HostWorld)
      → IsSilent p (link_sent (HostToServer.relay (p.hex.to_wire (PakeMsg.encode p.pake_codec m))))
      → w.trace ≡ w'.trace
      → (out ≡ (send_relay p m w).1) ⊎ (out ≡ (kicked f (send_relay p m w).1).1)
      → Silent p w' out
  unfolding send_relay
  told-Silent m f w w' out silent e how =
      let call = link_sent (HostToServer.relay (p.hex.to_wire (PakeMsg.encode p.pake_codec m))) in
      let w1 = (send_relay p m w).1 in
      let sent : w1.trace ≡ call ∷ w'.trace = link_send-trace _ w ∙ ap (λ l. call ∷ l) e in
      elim how [
        | inl same ↦ subst (Silent p w') (sym same) (call ∷ [], sent, (silent, tt))
        | inr same ↦ subst (Silent p w') (sym same) (
          link_sent HostToServer.kick ∷ call ∷ [],
          kicked-trace f w1 ∙ ap (λ l. link_sent HostToServer.kick ∷ l) sent,
          (kick, (silent, tt)),
        )
      ]

  reject_relay-Silent :
      (f : AttemptFailure) (w w' : HostWorld)
      → w.trace ≡ w'.trace
      → Silent p w' (reject_relay p f w).1
  unfolding reject_relay
  reject_relay-Silent f w w' e =
      told-Silent PakeMsg.rejected f w w' (reject_relay p f w).1 rejected e
        (elim (Result-cases (send_relay p PakeMsg.rejected w).0) [
          | inl (x, bad) ↦ inl (ground (arith, bad))
          | inr (x, good) ↦ inr (ground (arith, good))
        ])

module _ (p : Platform) (cfg : HostConfig) where
  -- No later stage touches the limiter.
  finish-limiter :
      (sk : SessionKeys) (st : HostState) (ch : Channel) (w : HostWorld)
      → (finish p cfg sk st ch w).0.1.limiter ≡ st.limiter
  unfolding finish
  finish-limiter sk st ch w = ground (arith, handshake-limiter p cfg sk st ch w)

  negotiate-limiter :
      (sk : SessionKeys) (st : HostState) (offer : Str) (w : HostWorld)
      → (negotiate p cfg sk st offer w).0.1.limiter ≡ st.limiter
  unfolding negotiate
  negotiate-limiter sk st offer w = elim (Result-cases (p.accept_offer offer)) [
    | inl (x, e) ↦ ground (arith, e)
    | inr (answer, e) ↦
        let reply = PakeMsg.answer (first_sealed p.aead (host_side sk).0 (utf8 answer)) in
        ground (arith, e, finish-limiter sk st Channel.new (send_relay p reply w).1)
  ]

  confirm_code-limiter :
      (output : p.pake_lib.Output) (st : HostState) (mac_a sealed : Bytes) (w : HostWorld)
      → let out = confirm_code p cfg output st mac_a sealed w in
        (out.0.1 ≡ st)
        ⊎ (((sk : SessionKeys) × (host_confirm p.pake_lib output mac_a ≡ ok sk))
            × (out.0.1.limiter ≡ record_success st.limiter))
  unfolding confirm_code
  confirm_code-limiter output st mac_a sealed w =
      elim (Result-cases (host_confirm p.pake_lib output mac_a)) [
        | inl (x, e) ↦ inl (ground (arith, e))
        | inr (sk, e) ↦
            let st' : HostState = record st { limiter = record_success st.limiter } in
            inr (
              (sk, e),
              elim (Option-cases (opened_text p.aead (host_side sk).1 sealed)) [
                | inl f ↦ ground (arith, e, f)
                | inr (offer, f) ↦ ground (arith, e, f, negotiate-limiter sk st' offer w)
              ],
            )
      ]

  on_confirm-limiter :
      (output : p.pake_lib.Output) (st : HostState) (r : Relay) (w : HostWorld)
      → let out = on_confirm p cfg output st r w in
        (out.0.1 ≡ st)
        ⊎ (((mac_a : Bytes) × (sk : SessionKeys) × (host_confirm p.pake_lib output mac_a ≡ ok sk))
            × (out.0.1.limiter ≡ record_success st.limiter))
  unfolding on_confirm
  on_confirm-limiter output st (Relay.msg (PakeMsg.confirm mac_a sealed)) w =
      elim (confirm_code-limiter output st mac_a sealed w) [
        | inl same ↦ inl same
        | inr ((sk, e), reset) ↦ inr ((mac_a, sk, e), reset)
      ]
  on_confirm-limiter output st (Relay.msg _) w = inl refl
  on_confirm-limiter output st Relay.malformed w = inl refl
  on_confirm-limiter output st Relay.left w = inl refl
  on_confirm-limiter output st Relay.timed_out w = inl refl

  count_guess-limiter :
      (st : HostState) (w : HostWorld)
      → (count_guess p cfg st w).0.limiter ≡ (record_failure st.limiter (now w).0).1
  unfolding count_guess
  count_guess-limiter st w = ground arith

  count_guess-Counts : (st : HostState) (w : HostWorld) → Counts p st (count_guess p cfg st w).0
  unfolding count_guess
  count_guess-Counts st w =
      let (t, w1) = now w in
      (
        t,
        count_guess-limiter st w,
        elim (Bool-cases (record_failure st.limiter t).0.rotate_code) [
          | inl last ↦ inr (last, (draw w1).0, ground (arith, last))
          | inr not_yet ↦ inl (not_yet, ground (arith, not_yet))
        ],
      )

  recv_relay-trace :
      (w : HostWorld) → (recv_relay p cfg.timeouts.signaling_step w).1.trace ≡ w.trace
  unfolding recv_relay
  recv_relay-trace w = ground (arith, link_recv-trace cfg.timeouts.signaling_step w)

  respond-Guarded :
      (st : HostState) (pa : Bytes) (w w' : HostWorld)
      → w.trace ≡ w'.trace
      → Guarded p cfg st w' (respond p cfg st pa w)
  unfolding respond
  respond-Guarded st pa w w' e =
      let (n, w1) = draw w in
      elim (Result-cases (host_respond p.pake_lib (p.fresh_bytes n) st.code cfg.host_id pa)) [
        | inl (x, bad) ↦
            let out : respond p cfg st pa w ≡ beside st (reject_relay p malformed) w1 =
              ground (arith, bad) in
            subst (Guarded p cfg st w') (sym out)
              (inl (refl, reject_relay-Silent p malformed w1 w' (draw-trace w ∙ e)))
        | inr ((output, pb, mac_b), good) ↦
            let (st', w2) = count_guess p cfg st w1 in
            let counted = count_guess-limiter st w1 in
            let (s, w3) = send_relay p (PakeMsg.reply pb mac_b) w2 in
            elim (Result-cases s) [
              | inl (x, unsent) ↦
                  let out : respond p cfg st pa w ≡ ((err (link x), st'), w3) =
                    ground (arith, good, unsent) in
                  subst (Guarded p cfg st w') (sym out) (inr (inl (count_guess-Counts st w1)))
              | inr (x, sent) ↦
                  let (got, w4) = recv_relay p cfg.timeouts.signaling_step w3 in
                  elim (Result-cases got) [
                    | inl (y, lost) ↦
                        let out : respond p cfg st pa w ≡ ((err (link y), st'), w4) =
                          ground (arith, good, sent, lost) in
                        subst (Guarded p cfg st w') (sym out) (inr (inl (count_guess-Counts st w1)))
                    | inr (r, heard) ↦
                        let out : respond p cfg st pa w ≡ on_confirm p cfg output st' r w4 =
                          ground (arith, good, sent, heard) in
                        subst (Guarded p cfg st w') (sym out)
                          (elim (on_confirm-limiter output st' r w4) [
                            | inl kept ↦
                                inr
                                  (inl (subst (Counts p st) (sym kept) (count_guess-Counts st w1)))
                            | inr ((mac_a, sk, agreed), reset) ↦ inr (
                                inr (
                                  (n, pa, output, pb, mac_b, mac_a, sk, good, agreed),
                                  ((now w1).0, reset ∙ ap record_success counted),
                                ))
                          ])
                  ]
            ]
      ]

  on_start-Guarded :
      (st : HostState) (r : Relay) (w w' : HostWorld)
      → w.trace ≡ w'.trace
      → Guarded p cfg st w' (on_start p cfg st r w)
  unfolding on_start
  on_start-Guarded st (Relay.msg (PakeMsg.start pa)) w w' e = respond-Guarded st pa w w' e
  on_start-Guarded st (Relay.msg _) w w' e = inl (refl, reject_relay-Silent p malformed w w' e)
  on_start-Guarded st Relay.malformed w w' e = inl (refl, reject_relay-Silent p malformed w w' e)
  on_start-Guarded st Relay.left w w' e = inl (refl, ([], e, tt))
  on_start-Guarded st Relay.timed_out w w' e = inl (refl, kicked-Silent p (timeout pake) w w' e)

  -- Whatever the viewer, the link and the clock do, an attempt ends in one of three ways. Either the
  -- host's state is as before, and only kicks, `Rejected` and `RetryAfter` were sent since; or one
  -- more failure is on the limiter, and the code is another one if this failure tells the host to
  -- replace it and the same one if not; or the viewer has shown in an exchange for the host's code that
  -- it knows the code, and the limiter is reset after that failure was recorded.
  pub attempt-Guarded : (st : HostState) (w : HostWorld) → Guarded p cfg st w (attempt p cfg st w)
  unfolding attempt
  attempt-Guarded st w =
      let (t, w1) = now w in
      elim (Result-cases (check st.limiter t)) [
        | inl (wait, early) ↦
            let told = PakeMsg.retry_after (retry_ms wait) in
            let (s, w2) = send_relay p told w1 in
            let silent = told-Silent p told wait_required w1 w in
            elim (Result-cases s) [
              | inl (x, unsent) ↦
                  let out : attempt p cfg st w ≡ ((err (link x), st), w2) =
                    ground (arith, early, unsent) in
                  subst (Guarded p cfg st w) (sym out)
                    (inl (refl, silent w2 (retry (retry_ms wait)) (now-trace w) (inl refl)))
              | inr (x, sent) ↦
                  let out : attempt p cfg st w ≡ beside st (kicked wait_required) w2 =
                    ground (arith, early, sent) in
                  subst (Guarded p cfg st w) (sym out) (
                    inl (
                      refl,
                      silent (kicked wait_required w2).1 (retry (retry_ms wait)) (now-trace w)
                          (inr refl),
                    ))
            ]
        | inr (x, open_gate) ↦
            let (got, w2) = recv_relay p cfg.timeouts.signaling_step w1 in
            let same = recv_relay-trace w1 ∙ now-trace w in
            elim (Result-cases got) [
              | inl (y, lost) ↦
                  let out : attempt p cfg st w ≡ ((err (link y), st), w2) =
                    ground (arith, open_gate, lost) in
                  subst (Guarded p cfg st w) (sym out) (inl (refl, ([], same, tt)))
              | inr (r, heard) ↦
                  let out : attempt p cfg st w ≡ on_start p cfg st r w2 =
                    ground (arith, open_gate, heard) in
                  subst (Guarded p cfg st w) (sym out) (on_start-Guarded st r w2 w same)
            ]
      ]
