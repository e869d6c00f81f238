-- ===== src/Transport/Channel/Queue.antt =====
-- The channel as a queue: messages leave in the order in which they came, each once.
use simple_remote.Base.{
  ℕ, zero, suc, ◌+◌, ◌-◌, ◌≤◌, ◌≡◌, ◌⊎◌, refl, Bool, true, false, Option, none, some, List, [], ◌∷◌,
  ◌++◌, Result, ok, err, length, leb, arith, inl, inr, Bool-cases, List-cases, subst, append_assoc,
  append-nil, ap, sym, ◌∙◌,
}
use simple_remote.Base.Text.{Bytes}
use simple_remote.Protocol.{Instant}
use simple_remote.Protocol.Control.{Control, DecodeError, decode}
use simple_remote.Protocol.Serde.{Codec}
use simple_remote.Transport.Interface.{TransportError, PeerEvent, connected, channel_open, received}
use simple_remote.Transport.World.{World, now, peer_poll}
use simple_remote.Transport.Channel.{
  Channel, Next, decoded, absorb, absorb_from, data_of, data_of_events, inbox, next_loop, next,
}
use simple_remote.Transport.Channel.Ends.{now-polls, now-clock, next_ends}

pending-absorb_from :
    (es : List PeerEvent) (opened : Bool) (ch : Channel)
    → (absorb_from es (opened, ch)).1.pending ≡ ch.pending ++ data_of_events es
unfolding absorb_from
pending-absorb_from [] opened ch = sym (append-nil ch.pending)
pending-absorb_from (connected ∷ es) opened ch = pending-absorb_from es opened ch
pending-absorb_from (channel_open ∷ es) opened ch = pending-absorb_from es true ch
pending-absorb_from (PeerEvent.closed ∷ es) opened ch =
    pending-absorb_from es opened (record ch { remote_closed = true })
pending-absorb_from (received d ∷ es) opened ch =
    pending-absorb_from es opened (record ch { pending = ch.pending ++ d ∷ [] })
    ∙ append_assoc ch.pending (d ∷ []) (data_of_events es)

pub pending-absorb :
    (es : List PeerEvent) (ch : Channel)
    → (absorb es ch).1.pending ≡ ch.pending ++ data_of_events es
unfolding absorb
pending-absorb es ch = pending-absorb_from es false ch

-- How the answer of `next` relates what was to come before and after it.
abbrev pub Delivers :
    Codec Control Bytes
    → Instant
    → List Bytes
    → Result Next TransportError
    → Channel
    → Instant
    → List Bytes
    → Type 0
Delivers codec deadline before (ok (Next.msg m)) ch clock after =
    (d : Bytes) × (decode codec d ≡ ok m) × (before ≡ d ∷ after)
Delivers codec deadline before (ok Next.malformed) ch clock after =
    (d : Bytes) × (decoded codec d ≡ Next.malformed) × (before ≡ d ∷ after)
Delivers codec deadline before (ok Next.closed) ch clock after =
    (ch.remote_closed ≡ true) × (ch.pending ≡ []) × (before ≡ after)
Delivers codec deadline before (ok Next.timed_out) ch clock after =
    (deadline ≤ clock) × (ch.remote_closed ≡ false) × (ch.pending ≡ []) × (before ≡ after)
Delivers codec deadline before (err e) ch clock after = (ch.pending ≡ []) × (before ≡ after)

Delivers-first :
    (codec : Codec Control Bytes) (deadline : Instant) (d : Bytes) (before after : List Bytes)
    (ch : Channel) (clock : Instant)
    → before ≡ d ∷ after
    → Delivers codec deadline before (ok (decoded codec d)) ch clock after
Delivers-first codec deadline d before after ch clock e = go (decode codec d) refl
  where
    go :
        (r : Result Control DecodeError)
        → decode codec d ≡ r
        → Delivers codec deadline before
            (ok (elim r [ ok m ↦ Next.msg m | err _ ↦ Next.malformed ]))
            ch
            clock
            after
    go (ok m) same = (d, same, e)
    go (err x) same = (
      d,
      ap (λ (v : Result Control DecodeError). elim v [ ok m ↦ Next.msg m | err _ ↦ Next.malformed ])
          same,
      e,
    )

module _ {In Out : Type 0} (codec : Codec Control Bytes) (deadline : Instant) where
  abbrev Holds :
      List Bytes → Option ((Result Next TransportError × Channel) × World In Out) → Type 0
  Holds before none = Unit
  Holds before (some ((r, ch'), w')) = Delivers codec deadline before r ch' w'.clock (inbox ch' w')

  -- A round that polls an open channel with nothing pending.
  waiting-Holds :
      (fuel : ℕ) (ch : Channel) (w : World In Out)
      → ch.pending ≡ []
      → ch.remote_closed ≡ false
      → leb deadline (now w).0 ≡ false
      → ((ch' : Channel) (w' : World In Out)
          → Holds (inbox ch' w') (next_loop codec fuel deadline ch' w'))
      → Holds (inbox ch w) (next_loop codec (suc fuel) deadline ch w)
  unfolding next_loop peer_poll
  waiting-Holds fuel ch w e still early ih =
      let (t, w1) = now w in
      elim (List-cases w.polls) [
        | inl silent ↦
            let w2 : World In Out = record w1 { clock = w1.clock + (deadline - t) } in
            let ch' = (absorb [] ch).1 in
            let out : next_loop codec (suc fuel) deadline ch w
                ≡ next_loop codec fuel deadline ch' w2 =
              ground (arith, e, still, early, now-polls w, silent) in
            let same : inbox ch w ≡ inbox ch' w2 =
              ap (λ l. l ++ data_of w.polls)
                (sym (append-nil ch.pending) ∙ sym (pending-absorb [] ch))
              ∙ ap (λ ps. ch'.pending ++ data_of ps) (sym (now-polls w)) in
            subst (Holds (inbox ch w)) (sym out)
              (subst (λ b. Holds b (next_loop codec fuel deadline ch' w2)) (sym same) (ih ch' w2))
        | inr (err x, ps, more) ↦
            let w2 : World In Out = record w1 { polls = ps } in
            let out : next_loop codec (suc fuel) deadline ch w ≡ some ((err x, ch), w2) =
              ground (arith, e, still, early, now-polls w, more) in
            subst (Holds (inbox ch w)) (sym out) (e, ap (λ l. ch.pending ++ data_of l) more)
        | inr (ok es, ps, more) ↦
            let w2 : World In Out = record w1 { polls = ps } in
            let ch' = (absorb es ch).1 in
            let out : next_loop codec (suc fuel) deadline ch w
                ≡ next_loop codec fuel deadline ch' w2 =
              ground (arith, e, still, early, now-polls w, more) in
            let same : inbox ch w ≡ inbox ch' w2 =
              ap (λ l. ch.pending ++ data_of l) more
              ∙ sym (append_assoc ch.pending (data_of_events es) (data_of ps))
              ∙ ap (λ l. l ++ data_of ps) (sym (pending-absorb es ch)) in
            subst (Holds (inbox ch w)) (sym out)
              (subst (λ b. Holds b (next_loop codec fuel deadline ch' w2)) (sym same) (ih ch' w2))
      ]

  next_loop-Holds :
      (fuel : ℕ) (ch : Channel) (w : World In Out)
      → Holds (inbox ch w) (next_loop codec fuel deadline ch w)
  unfolding next_loop
  next_loop-Holds zero ch w = tt
  next_loop-Holds (suc fuel) ch w = elim (List-cases ch.pending) [
    | inr (d, rest, e) ↦
        let out : next_loop codec (suc fuel) deadline ch w
            ≡ some ((ok (decoded codec d), record ch { pending = rest }), w) =
          ground (arith, e) in
        subst (Holds (inbox ch w)) (sym out) (
          Delivers-first codec deadline d (inbox ch w) (rest ++ data_of w.polls)
            (record ch { pending = rest }) w.clock (ap (λ l. l ++ data_of w.polls) e))
    | inl e ↦ elim (Bool-cases ch.remote_closed) [
      | inl closed ↦
          let out : next_loop codec (suc fuel) deadline ch w ≡ some ((ok Next.closed, ch), w) =
            ground (arith, e, closed) in
          subst (Holds (inbox ch w)) (sym out) (closed, e, refl)
      | inr still ↦ elim (Bool-cases (leb deadline (now w).0)) [
        | inl late ↦
            let w1 = (now w).1 in
            let out : next_loop codec (suc fuel) deadline ch w
                ≡ some ((ok Next.timed_out, ch), w1) =
              ground (arith, e, still, late) in
            let (_, clock) = now-clock w in
            subst (Holds (inbox ch w)) (sym out) (
              ground (arith, late, clock),
              still,
              e,
              ap (λ ps. ch.pending ++ data_of ps) (sym (now-polls w)),
            )
        | inr early ↦ waiting-Holds fuel ch w e still early (next_loop-Holds fuel)
      ]
    ]
  ]

-- The answer of `next` and what was to come: a message or a refusal takes the first of the messages
-- still to come, in the order of their arrival, and leaves the others; `Closed` is said only when
-- none is pending and the peer has closed; `TimedOut` only when the deadline has passed, with
-- none pending and the peer not closed; these and an error take nothing.
pub next-Delivers :
    {In Out : Type 0} (codec : Codec Control Bytes) (deadline : Instant) (ch : Channel)
    (w : World In Out)
    → let ((r, ch'), w') = next codec deadline ch w in
      Delivers codec deadline (inbox ch w) r ch' w'.clock (inbox ch' w')
next-Delivers codec deadline ch w =
    subst (Holds codec deadline (inbox ch w)) (next_ends codec deadline ch w)
      (next_loop-Holds codec deadline (length w.polls + 2) ch w)

-- Whether an answer took a message.
abbrev pub Taken : Result Next TransportError → Type 0
Taken r = ((m : Control) × (r ≡ ok (Next.msg m))) ⊎ (r ≡ ok Next.malformed)

abbrev pub Ended : Result Next TransportError → Type 0
Ended r = (r ≡ ok Next.closed) ⊎ ((r ≡ ok Next.timed_out) ⊎ ((e : TransportError) × (r ≡ err e)))

Delivers-shorter :
    (codec : Codec Control Bytes) (deadline : Instant) (before after : List Bytes)
    (r : Result Next TransportError) (ch : Channel) (clock : Instant)
    → Delivers codec deadline before r ch clock after
    → (Taken r × (length before ≡ length after + 1)) ⊎ Ended r
Delivers-shorter codec deadline before after (ok (Next.msg m)) ch clock (d, is_m, e) =
    inl (inl (m, refl), ap length e ∙ ground arith)
Delivers-shorter codec deadline before after (ok Next.malformed) ch clock (d, is_m, e) =
    inl (inr refl, ap length e ∙ ground arith)
Delivers-shorter codec deadline before after (ok Next.closed) ch clock h = inr (inl refl)
Delivers-shorter codec deadline before after (ok Next.timed_out) ch clock h = inr (inr (inl refl))
Delivers-shorter codec deadline before after (err x) ch clock h = inr (inr (inr (x, refl)))

-- Each answer of `next` has taken a message from those to come, or is an end.
pub next-shorter :
    {In Out : Type 0} (codec : Codec Control Bytes) (deadline : Instant) (ch : Channel)
    (w : World In Out)
    → let ((r, ch'), w') = next codec deadline ch w in
      (Taken r × (length (inbox ch w) ≡ length (inbox ch' w') + 1)) ⊎ Ended r
next-shorter codec deadline ch w =
    Delivers-shorter codec deadline _ _ _ _ _ (next-Delivers codec deadline ch w)

-- `TimedOut` is said only when the deadline has passed.
pub next-late :
    {In Out : Type 0} (codec : Codec Control Bytes) (deadline : Instant) (ch : Channel)
    (w : World In Out)
    → let ((r, ch'), w') = next codec deadline ch w in r ≡ ok Next.timed_out → deadline ≤ w'.clock
next-late codec deadline ch w e =
    let ((r, ch'), w') = next codec deadline ch w in
    let held =
      subst (λ x. Delivers codec deadline (inbox ch w) x ch' w'.clock (inbox ch' w')) e
        (next-Delivers codec deadline ch w) in
    held.0
