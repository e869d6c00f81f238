-- ===== src/Transport/Channel/Opening.antt =====
-- Waiting for the channel to open loses no message.
use simple_remote.Base.{
  ℕ, zero, suc, ◌+◌, ◌-◌, ◌≡◌, inl, inr, false, some, [], ◌++◌, Result, ok, err, length, leb, arith,
  Bool-cases, Option-cases, List-cases, ◌∙◌, ap, sym, append_assoc,
}
use simple_remote.Protocol.{Instant}
use simple_remote.Transport.Interface.{TransportError}
use simple_remote.Transport.World.{World, now, peer_poll}
use simple_remote.Transport.Channel.{
  Channel, Opened, absorb, absorb_from, data_of, data_of_events, inbox, wait_open_loop, wait_open,
}
use simple_remote.Transport.Channel.Ends.{now-polls}
use simple_remote.Transport.Channel.Queue.{pending-absorb}

module _ {In Out : Type 0} where
  silent_round :
      (fuel : ℕ) (deadline : Instant) (ch : Channel) (w : World In Out)
      → ch.remote_closed ≡ false
      → leb deadline (now w).0 ≡ false
      → (now w).1.polls ≡ []
      → let (t, w1) = now w in
        wait_open_loop (suc fuel) deadline ch w
        ≡ wait_open_loop fuel deadline ch (record w1 { clock = w1.clock + (deadline - t) })
  unfolding wait_open_loop peer_poll absorb absorb_from
  silent_round fuel deadline ch w there early empty = ground (arith, there, early, empty)

  wait_open_loop-inbox :
      (fuel : ℕ) (deadline : Instant) (ch : Channel) (w : World In Out)
      (r : Result Opened TransportError) (ch' : Channel) (w' : World In Out)
      → wait_open_loop fuel deadline ch w ≡ some ((r, ch'), w')
      → inbox ch' w' ≡ inbox ch w
  unfolding wait_open_loop peer_poll
  wait_open_loop-inbox zero deadline ch w r ch' w' e = absurd (ground arith)
  wait_open_loop-inbox (suc fuel) deadline ch w r ch' w' e =
      let (t, w1) = now w in
      let same = now-polls w in
      elim (Bool-cases ch.remote_closed) [
        | inl gone ↦ ground (arith, gone)
        | inr there ↦ elim (Bool-cases (leb deadline t)) [
          | inl late ↦ ground (arith, there, late, same)
          | inr early ↦ elim (List-cases w1.polls) [
            | inl empty ↦
                let w2 : World In Out = record w1 { clock = w1.clock + (deadline - t) } in
                let kept : inbox ch w2 ≡ inbox ch w = ap (λ l. ch.pending ++ data_of l) same in
                wait_open_loop-inbox fuel deadline ch w2 r ch' w'
                  (sym (silent_round fuel deadline ch w there early empty) ∙ e)
                ∙ kept
            | inr (err x, ps, more) ↦
                let kept : ch.pending ++ data_of ps ≡ inbox ch w =
                  ap (λ l. ch.pending ++ data_of l) (sym more ∙ same) in
                ground (arith, there, early, more, kept)
            | inr (ok es, ps, more) ↦
                let w2 : World In Out = record w1 { polls = ps } in
                let (opened, ch1) = absorb es ch in
                let kept : inbox ch1 w2 ≡ inbox ch w =
                  ap (λ l. l ++ data_of ps) (pending-absorb es ch)
                  ∙ append_assoc ch.pending (data_of_events es) (data_of ps)
                  ∙ ap (λ l. ch.pending ++ data_of l) (sym more ∙ same) in
                elim (Bool-cases opened) [
                  | inl is_open ↦ ground (arith, there, early, more, is_open, kept)
                  | inr not_yet ↦
                      wait_open_loop-inbox fuel deadline ch1 w2 r ch' w'
                        (ground (arith, there, early, more, not_yet))
                      ∙ kept
                ]
          ]
        ]
      ]

  pub wait_open-inbox :
      (deadline : Instant) (ch : Channel) (w : World In Out)
      → let ((r, ch'), w') = wait_open deadline ch w in inbox ch' w' ≡ inbox ch w
  unfolding wait_open
  wait_open-inbox deadline ch w =
      elim (Option-cases (wait_open_loop (length w.polls + 2) deadline ch w)) [
        | inl out ↦ ground (arith, out)
        | inr (((r, ch'), w'), done) ↦
            let same = wait_open_loop-inbox (length w.polls + 2) deadline ch w r ch' w' done in
            ground (arith, done, same)
      ]
