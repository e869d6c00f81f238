-- ===== src/Transport/Channel/Others.antt =====
-- What reading from a channel leaves alone: the user's answers.
use simple_remote.Base.{
  ℕ, zero, suc, ◌+◌, ◌-◌, ◌≡◌, inl, inr, some, Result, length, leb, arith, Bool-cases, Option-cases,
  Result-cases, List-cases, ◌∙◌,
}
use simple_remote.Base.Text.{Bytes}
use simple_remote.Protocol.{Instant}
use simple_remote.Protocol.Control.{Control}
use simple_remote.Protocol.Serde.{Codec}
use simple_remote.Transport.Interface.{TransportError}
use simple_remote.Transport.World.{World, now, peer_poll}
use simple_remote.Transport.Channel.{Channel, Next, absorb, next_loop, next}

module _ {In Out : Type 0} where
  pub now-answers : (w : World In Out) → (now w).1.answers ≡ w.answers
  unfolding now
  now-answers w = ground arith

  peer_poll-answers : (t : ℕ) (w : World In Out) → (peer_poll t w).1.answers ≡ w.answers
  unfolding peer_poll
  peer_poll-answers t w = ground arith

  next_loop-answers :
      (codec : Codec Control Bytes) (fuel : ℕ) (deadline : Instant) (ch : Channel)
      (w : World In Out) (r : Result Next TransportError) (ch' : Channel) (w' : World In Out)
      → next_loop codec fuel deadline ch w ≡ some ((r, ch'), w')
      → w'.answers ≡ w.answers
  unfolding next_loop
  next_loop-answers codec zero deadline ch w r ch' w' e = absurd (ground arith)
  next_loop-answers codec (suc fuel) deadline ch w r ch' w' e =
      let (t, w1) = now w in
      let (polled, w2) = peer_poll (deadline - t) w1 in
      let same = peer_poll-answers (deadline - t) w1 ∙ now-answers w in
      elim (List-cases ch.pending) [
        | inr (d, rest, some_left) ↦ ground (arith, some_left)
        | inl empty ↦ elim (Bool-cases ch.remote_closed) [
          | inl gone ↦ ground (arith, empty, gone)
          | inr there ↦ elim (Bool-cases (leb deadline t)) [
            | inl late ↦ ground (arith, empty, there, late, now-answers w)
            | inr early ↦ elim (Result-cases polled) [
              | inl (x, bad) ↦ ground (arith, empty, there, early, bad, same)
              | inr (events, good) ↦
                  next_loop-answers codec fuel deadline (absorb events ch).1 w2 r ch' w'
                    (ground (arith, empty, there, early, good))
                  ∙ same
            ]
          ]
        ]
      ]

  pub next-answers :
      (codec : Codec Control Bytes) (deadline : Instant) (ch : Channel) (w : World In Out)
      → (next codec deadline ch w).1.answers ≡ w.answers
  unfolding next
  next-answers codec deadline ch w =
      elim (Option-cases (next_loop codec (length w.polls + 2) deadline ch w)) [
        | inl out ↦ ground (arith, out)
        | inr (((r, ch'), w'), done) ↦
            let same = next_loop-answers codec (length w.polls + 2) deadline ch w r ch' w' done in
            ground (arith, done, same)
      ]
