-- ===== src/Host/Session/Approval/Ends.antt =====
-- The loops of `wait_approval` and `reject_decision` end, and what an approval means.
use simple_remote.Base.{
  ℕ, zero, suc, ◌+◌, ◌*◌, ◌/◌, ◌≤◌, ◌<◌, ◌≡◌, ◌≢◌, true, false, none, some, List, ◌∷◌, length, leb,
  min, arith, inl, inr, Bool-cases, Option-cases, ◌∙◌, ap,
}
use simple_remote.Base.Text.{Bytes, Str}
use simple_remote.Protocol.{Instant, Duration}
use simple_remote.Protocol.Control.{Control}
use simple_remote.Protocol.Serde.{Codec}
use simple_remote.Protocol.Signaling.{HostToServer}
use simple_remote.Transport.World.{Call, asked, now, ask}
use simple_remote.Transport.Channel.{Channel, inbox, next}
use simple_remote.Transport.Channel.Ends.{now-clock}
use simple_remote.Transport.Channel.Queue.{next-shorter, next-late}
use simple_remote.Host.Session.Approval.{
  HostWorld, granted, approval_poll, approval_loop, wait_approval, linger_loop, linger,
}

module _ (codec : Codec Control Bytes) where
  linger_ends_from :
      (fuel : ℕ) (deadline : Instant) (ch : Channel) (w : HostWorld)
      → length (inbox ch w) < fuel
      → linger_loop codec fuel deadline ch w ≢ none
  unfolding linger_loop
  linger_ends_from zero deadline ch w h = absurd (omega arith)
  linger_ends_from (suc fuel) deadline ch w h =
      let ((r, ch'), w') = next codec deadline ch w in
      let again = linger_ends_from fuel deadline ch' w' in
      elim (next-shorter codec deadline ch w) [
        | inl (inl (m, e), shorter) ↦ ground (arith, e, again (omega (arith, shorter)))
        | inl (inr e, shorter) ↦ ground (arith, e, again (omega (arith, shorter)))
        | inr (inl e) ↦ ground (arith, e)
        | inr (inr (inl e)) ↦ ground (arith, e)
        | inr (inr (inr (x, e))) ↦ ground (arith, e)
      ]

  -- The loop of `reject_decision` ends, whatever the viewer sends.
  pub linger_ends :
      (deadline : Instant) (ch : Channel) (w : HostWorld)
      → linger_loop codec (length (inbox ch w) + 1) deadline ch w
        ≡ some (linger codec deadline ch w)
  unfolding linger
  linger_ends deadline ch w =
      elim (Option-cases (linger_loop codec (length (inbox ch w) + 1) deadline ch w)) [
        | inl out ↦
            absurd (linger_ends_from (length (inbox ch w) + 1) deadline ch w (omega arith) out)
        | inr (r, e) ↦ ground (arith, e)
      ]

  ask-clock : (name shown : Str) (w : HostWorld) → (ask name shown w).1.clock ≡ w.clock
  unfolding ask
  ask-clock name shown w = ground arith

  approval_ends_from :
      (fuel : ℕ) (deadline : Instant) (name shown : Str) (ch : Channel) (w : HostWorld)
      → deadline ≤ w.clock + fuel * approval_poll
      → approval_loop codec (suc fuel) deadline name shown ch w ≢ none
  unfolding approval_loop
  approval_ends_from zero deadline name shown ch w h =
      let (answer, w1) = ask name shown w in ground (arith, h, now-clock w1, ask-clock name shown w)
  approval_ends_from (suc fuel) deadline name shown ch w h =
      let (answer, w1) = ask name shown w in
      let (t, w2) = now w1 in
      let until = min (t + approval_poll) deadline in
      let ((r, ch'), w3) = next codec until ch w2 in
      elim (Option-cases answer) [
        | inr (true, e) ↦ ground (arith, e)
        | inr (false, e) ↦ ground (arith, e)
        | inl silent ↦ elim (Bool-cases (leb deadline t)) [
          | inl late ↦ ground (arith, silent, late)
          | inr early ↦ elim (next-shorter codec until ch w2) [
            | inl (inl (m, e), shorter) ↦ ground (arith, silent, early, e)
            | inl (inr e, shorter) ↦ ground (arith, silent, early, e)
            | inr (inl e) ↦ ground (arith, silent, early, e)
            | inr (inr (inr (x, e))) ↦ ground (arith, silent, early, e)
            | inr (inr (inl e)) ↦
                let later : deadline ≤ w3.clock + fuel * approval_poll =
                  omega
                    (arith, next-late codec until ch w2 e, now-clock w1, ask-clock name shown w) in
                ground (
                  arith,
                  silent,
                  early,
                  e,
                  approval_ends_from fuel deadline name shown ch' w3 later,
                )
          ]
        ]
      ]

  -- The loop of `wait_approval` ends, whatever the viewer and the user do.
  pub approval_ends :
      (name shown : Str) (limit : Duration) (ch : Channel) (w : HostWorld)
      → let (t, w1) = now w in
        approval_loop codec (limit / approval_poll + 3) (t + limit) name shown ch w1
        ≡ some (wait_approval codec name shown limit ch w)
  unfolding wait_approval
  approval_ends name shown limit ch w =
      let (t, w1) = now w in
      let fuel = limit / approval_poll + 2 in
      elim (Option-cases (approval_loop codec (suc fuel) (t + limit) name shown ch w1)) [
        | inl out ↦
            absurd (
              approval_ends_from fuel (t + limit) name shown ch w1 (omega (arith, now-clock w)) out)
        | inr (r, e) ↦ ground (arith, e)
      ]

  approval_loop-granted :
      (fuel : ℕ) (deadline : Instant) (name shown : Str) (ch : Channel) (w : HostWorld)
      (ch' : Channel) (w' : HostWorld)
      → approval_loop codec fuel deadline name shown ch w ≡ some ((granted, ch'), w')
      → (before : List (Call HostToServer)) × (w'.trace ≡ asked name shown (some true) ∷ before)
  unfolding approval_loop ask
  approval_loop-granted zero deadline name shown ch w ch' w' e = absurd (ground arith)
  approval_loop-granted (suc fuel) deadline name shown ch w ch' w' e =
      let (answer, w1) = ask name shown w in
      let (t, w2) = now w1 in
      let until = min (t + approval_poll) deadline in
      let ((r, ch1), w3) = next codec until ch w2 in
      elim (Option-cases answer) [
        | inr (true, yes_said) ↦ (w.trace, ground (arith, yes_said))
        | inr (false, no_said) ↦ absurd (ground (arith, no_said))
        | inl silent ↦ elim (Bool-cases (leb deadline t)) [
          | inl late ↦ absurd (ground (arith, silent, late))
          | inr early ↦ elim (next-shorter codec until ch w2) [
            | inl (inl (m, f), shorter) ↦ absurd (ground (arith, silent, early, f))
            | inl (inr f, shorter) ↦ absurd (ground (arith, silent, early, f))
            | inr (inl f) ↦ absurd (ground (arith, silent, early, f))
            | inr (inr (inr (x, f))) ↦ absurd (ground (arith, silent, early, f))
            | inr (inr (inl f)) ↦
                approval_loop-granted fuel deadline name shown ch1 w3 ch' w'
                  (ground (arith, silent, early, f))
          ]
        ]
      ]

  -- `Granted` is the answer only when the last thing that happened is that the user was shown this
  -- name and this fingerprint, and agreed.
  pub wait_approval-granted :
      (name shown : Str) (limit : Duration) (ch : Channel) (w : HostWorld) (ch' : Channel)
      (w' : HostWorld)
      → wait_approval codec name shown limit ch w ≡ ((granted, ch'), w')
      → (before : List (Call HostToServer)) × (w'.trace ≡ asked name shown (some true) ∷ before)
  wait_approval-granted name shown limit ch w ch' w' e =
      let (t, w1) = now w in
      approval_loop-granted (limit / approval_poll + 3) (t + limit) name shown ch w1 ch' w'
        (approval_ends name shown limit ch w ∙ ap some e)
