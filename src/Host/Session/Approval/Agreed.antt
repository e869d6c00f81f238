-- ===== src/Host/Session/Approval/Agreed.antt =====
-- An approval is the first answer of the user.
use simple_remote.Base.{
  ℕ, zero, suc, ◌+◌, ◌/◌, ◌≡◌, inl, inr, Bool, true, false, Option, none, some, List, [], ◌∷◌, leb,
  min, arith, Bool-cases, Option-cases, Result-cases, List-cases, ◌∙◌, ap, subst,
}
use simple_remote.Base.Text.{Bytes, Str}
use simple_remote.Protocol.{Instant, Duration}
use simple_remote.Protocol.Control.{Control}
use simple_remote.Protocol.Serde.{Codec}
use simple_remote.Transport.World.{now, ask}
use simple_remote.Transport.Channel.{Channel, Next, next}
use simple_remote.Transport.Channel.Others.{now-answers, next-answers}
use simple_remote.Host.Session.Approval.{
  HostWorld, granted, approval_poll, approval_loop, wait_approval,
}

-- The first answer is yes.
abbrev pub Agreed : List (Option Bool) → Type 0
Agreed [] = ⊥
Agreed (none ∷ answers) = Agreed answers
Agreed (some true ∷ answers) = Unit
Agreed (some false ∷ answers) = ⊥

ask-Agreed :
    (name shown : Str) (w : HostWorld)
    → (((ask name shown w).0 ≡ some true) → Agreed w.answers)
      × (((ask name shown w).0 ≡ none) → Agreed (ask name shown w).1.answers → Agreed w.answers)
unfolding ask
ask-Agreed name shown w = elim (List-cases w.answers) [
  | inl silent ↦ rw (silent) (λ q. absurd (ground arith), λ q rest. rest)
  | inr (none, more, here) ↦ rw (here) (λ q. absurd (ground arith), λ q rest. rest)
  | inr (some true, more, here) ↦ rw (here) (λ q. tt, λ q rest. tt)
  | inr (some false, more, here) ↦
      rw (here) (λ q. absurd (ground arith), λ q rest. absurd (ground arith))
]

module _ (codec : Codec Control Bytes) where
  approval_loop-Agreed :
      (fuel : ℕ) (deadline : Instant) (name shown : Str) (ch : Channel) (w : HostWorld)
      (ch' : Channel) (w' : HostWorld)
      → approval_loop codec fuel deadline name shown ch w ≡ some ((granted, ch'), w')
      → Agreed w.answers
  unfolding approval_loop
  approval_loop-Agreed zero deadline name shown ch w ch' w' e = absurd (ground arith)
  approval_loop-Agreed (suc fuel) deadline name shown ch w ch' w' e =
      let (answer, w1) = ask name shown w in
      let (t, w2) = now w1 in
      let until = min (t + approval_poll) deadline in
      let ((r, ch1), w3) = next codec until ch w2 in
      let (at_once, later) = ask-Agreed name shown w in
      elim (Option-cases answer) [
        | inr (true, yes_said) ↦ at_once yes_said
        | inr (false, no_said) ↦ absurd (ground (arith, no_said))
        | inl silent ↦ elim (Bool-cases (leb deadline t)) [
          | inl late ↦ absurd (ground (arith, silent, late))
          | inr early ↦ elim (Result-cases r) [
            | inl (x, bad) ↦ absurd (ground (arith, silent, early, bad))
            | inr (Next.msg m, got) ↦ absurd (ground (arith, silent, early, got))
            | inr (Next.malformed, got) ↦ absurd (ground (arith, silent, early, got))
            | inr (Next.closed, got) ↦ absurd (ground (arith, silent, early, got))
            | inr (Next.timed_out, got) ↦
                let rest =
                  approval_loop-Agreed fuel deadline name shown ch1 w3 ch' w'
                    (ground (arith, silent, early, got)) in
                later silent (subst Agreed (next-answers codec until ch w2 ∙ now-answers w1) rest)
          ]
        ]
      ]

  -- `Granted` is the answer only when the first answer of the user is yes.
  pub wait_approval-Agreed :
      (name shown : Str) (limit : Duration) (ch : Channel) (w : HostWorld)
      → (wait_approval codec name shown limit ch w).0.0 ≡ granted
      → Agreed w.answers
  unfolding wait_approval
  wait_approval-Agreed name shown limit ch w e =
      let (t, w1) = now w in
      elim (Option-cases
        (approval_loop codec (limit / approval_poll + 3) (t + limit) name shown ch w1)) [
          | inl out ↦ absurd (ground (arith, out))
          | inr (((a, ch'), w'), done) ↦
              let is_granted : a ≡ granted = ground (arith, done) in
              subst Agreed (now-answers w) (
                approval_loop-Agreed (limit / approval_poll + 3) (t + limit) name shown ch w1 ch' w'
                  (done ∙ ap (λ o. some ((o, ch'), w')) is_granted))
        ]
