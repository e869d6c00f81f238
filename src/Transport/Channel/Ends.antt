-- ===== src/Transport/Channel/Ends.antt =====
-- The loops of `wait_open` and `next` end: the fuel that they are given is enough.
use simple_remote.Base.{
  ℕ, zero, suc, ◌+◌, ◌-◌, ◌≤◌, ◌≡◌, ◌≢◌, refl, none, some, List, [], ◌∷◌, Result, ok, err, length,
  arith, inl, inr, Option-cases,
}
use simple_remote.Base.Text.{Bytes}
use simple_remote.Protocol.{Instant}
use simple_remote.Protocol.Control.{Control}
use simple_remote.Protocol.Serde.{Codec}
use simple_remote.Transport.Interface.{TransportError, PeerEvent}
use simple_remote.Transport.World.{World, now, peer_poll}
use simple_remote.Transport.Channel.{Channel, absorb, next_loop, next, wait_open_loop, wait_open}

module _ {In Out : Type 0} where
  pub now-polls : (w : World In Out) → (now w).1.polls ≡ w.polls
  unfolding now
  now-polls w = ground arith

  pub now-clock : (w : World In Out) → (w.clock ≤ (now w).0) × ((now w).1.clock ≡ (now w).0)
  unfolding now
  now-clock w = ground arith

  -- Once the peer is silent, two rounds are enough.
  next_silent :
      (codec : Codec Control Bytes) (fuel : ℕ) (deadline : Instant) (ch : Channel)
      (w : World In Out)
      → w.polls ≡ []
      → next_loop codec (suc (suc fuel)) deadline ch w ≢ none
  unfolding next_loop peer_poll absorb
  next_silent codec fuel deadline ch w e =
      let (t, w1) = now w in
      let w2 : World In Out = record w1 { clock = w1.clock + (deadline - t) } in
      ground (arith, now-polls w, now-clock w, now-clock w2)

  next_ends_from :
      (codec : Codec Control Bytes) (ps : List (Result (List PeerEvent) TransportError)) (fuel : ℕ)
      (deadline : Instant) (ch : Channel) (w : World In Out)
      → w.polls ≡ ps
      → length ps + 2 ≤ fuel
      → next_loop codec fuel deadline ch w ≢ none
  unfolding next_loop peer_poll
  next_ends_from codec ps zero deadline ch w e h = absurd (omega arith)
  next_ends_from codec [] (suc zero) deadline ch w e h = absurd (omega arith)
  next_ends_from codec [] (suc (suc fuel)) deadline ch w e h =
      next_silent codec fuel deadline ch w e
  next_ends_from codec (err x ∷ ps) (suc fuel) deadline ch w e h = ground (arith, now-polls w)
  next_ends_from codec (ok events ∷ ps) (suc fuel) deadline ch w e h =
      let (t, w1) = now w in
      let w2 : World In Out = record w1 { polls = ps } in
      let ch' = (absorb events ch).1 in
      ground (arith, now-polls w, next_ends_from codec ps fuel deadline ch' w2 refl (omega arith))

  -- `next` never runs out of the fuel that it gives its loop, whatever the peer does.
  pub next_ends :
      (codec : Codec Control Bytes) (deadline : Instant) (ch : Channel) (w : World In Out)
      → next_loop codec (length w.polls + 2) deadline ch w ≡ some (next codec deadline ch w)
  unfolding next
  next_ends codec deadline ch w =
      elim (Option-cases (next_loop codec (length w.polls + 2) deadline ch w)) [
        | inl out ↦
            absurd (
              next_ends_from codec w.polls (length w.polls + 2) deadline ch w refl (omega arith)
                out)
        | inr (r, e) ↦ ground (arith, e)
      ]

  wait_open_ends_from :
      (ps : List (Result (List PeerEvent) TransportError)) (fuel : ℕ) (deadline : Instant)
      (ch : Channel) (w : World In Out)
      → w.polls ≡ ps
      → length ps + 2 ≤ fuel
      → wait_open_loop fuel deadline ch w ≢ none
  unfolding wait_open_loop peer_poll absorb
  wait_open_ends_from ps zero deadline ch w e h = absurd (omega arith)
  wait_open_ends_from [] (suc zero) deadline ch w e h = absurd (omega arith)
  wait_open_ends_from [] (suc (suc fuel)) deadline ch w e h =
      let (t, w1) = now w in
      let w2 : World In Out = record w1 { clock = w1.clock + (deadline - t) } in
      ground (arith, now-polls w, now-clock w, now-clock w2)
  wait_open_ends_from (err x ∷ ps) (suc fuel) deadline ch w e h = ground (arith, now-polls w)
  wait_open_ends_from (ok events ∷ ps) (suc fuel) deadline ch w e h =
      let (t, w1) = now w in
      let w2 : World In Out = record w1 { polls = ps } in
      let ch' = (absorb events ch).1 in
      ground (arith, now-polls w, wait_open_ends_from ps fuel deadline ch' w2 refl (omega arith))

  -- `wait_open` never runs out of the fuel that it gives its loop, whatever the peer does.
  pub wait_open_ends :
      (deadline : Instant) (ch : Channel) (w : World In Out)
      → wait_open_loop (length w.polls + 2) deadline ch w ≡ some (wait_open deadline ch w)
  unfolding wait_open
  wait_open_ends deadline ch w =
      elim (Option-cases (wait_open_loop (length w.polls + 2) deadline ch w)) [
        | inl out ↦
            absurd (
              wait_open_ends_from w.polls (length w.polls + 2) deadline ch w refl (omega arith) out)
        | inr (r, e) ↦ ground (arith, e)
      ]
