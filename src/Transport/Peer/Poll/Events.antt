-- ===== src/Transport/Peer/Poll/Events.antt =====
-- What `poll` tells is what the library said.
use simple_remote.Base.{
  ◌≤◌, ◌≡◌, ◌⊎◌, ◌≢◌, refl, inl, inr, true, false, some, List, [], ◌∷◌, ◌++◌, Result, ok, err,
  arith, leb, Bool-cases, Option-cases, Result-cases, ap, ◌∙◌, append_assoc, subst, if◌then◌else◌,
}
use simple_remote.Protocol.{Instant}
use simple_remote.Transport.Interface.{PeerEvent, TransportError}
use simple_remote.Transport.Peer.{Event, Peer, map_event}
use simple_remote.Transport.Peer.Poll.Means.{Means, told_all, told_all-Means}
use simple_remote.Transport.Peer.Poll.{
  Output, timeout, transmit, event, Round, Sent, transmit_from, push, drain_output, is_empty, feed,
  poll_loop,
}

-- The events that the library gives before its `Timeout`
abbrev pub events_of : List (Result Output (Unit {0})) → List Event
events_of [] = []
events_of (err _ ∷ more) = []
events_of (ok timeout ∷ more) = []
events_of (ok (transmit source to contents) ∷ more) = events_of more
events_of (ok (event e) ∷ more) = e ∷ events_of more

abbrev pub said : List Round → List Event
said [] = []
said (r ∷ rounds) = events_of r.outputs ++ said rounds

drain_output-told_all :
    (outputs : List (Result Output (Unit {0}))) (acc events : List PeerEvent) (p p' : Peer)
    (sent : Sent)
    → drain_output outputs acc p ≡ some ((ok events, p'), sent)
    → told_all (events_of outputs) acc p ≡ (events, p')
unfolding drain_output
drain_output-told_all [] acc events p p' sent e = absurd (ground arith)
drain_output-told_all (err _ ∷ more) acc events p p' sent e = absurd (ground arith)
drain_output-told_all (ok timeout ∷ more) acc events p p' sent e = ground arith
drain_output-told_all (ok (transmit source to contents) ∷ more) acc events p p' sent e =
    elim (Option-cases (drain_output more acc p)) [
      | inl going ↦ absurd (ground (arith, going))
      | inr ((r, sent'), done) ↦
          drain_output-told_all more acc events p p' sent' (ground (arith, done))
    ]
drain_output-told_all (ok (event e) ∷ more) acc events p p' sent went =
    drain_output-told_all more (push (map_event e p).0 acc) events (map_event e p).1 p' sent went

told_all-append :
    (es fs : List Event) (acc : List PeerEvent) (p : Peer)
    → told_all (es ++ fs) acc p ≡ told_all fs (told_all es acc p).0 (told_all es acc p).1
told_all-append [] fs acc p = refl
told_all-append (e ∷ es) fs acc p =
    told_all-append es fs (push (map_event e p).0 acc) (map_event e p).1

enough :
    (got : List PeerEvent) (end at : Instant)
    → (if is_empty got then leb end at else true) ≡ true
    → (got ≢ []) ⊎ (end ≤ at)
enough [] end at e = inr (ground arith)
enough (x ∷ got) end at e = inl (λ q. absurd (ground arith))

nothing_told :
    (got : List PeerEvent) (end at : Instant)
    → (if is_empty got then leb end at else true) ≡ false
    → got ≡ []
nothing_told [] end at e = refl
nothing_told (x ∷ got) end at e = absurd (ground arith)

-- Events that mean nothing to the peer, and then others
after_silence :
    (es fs gs : List Event) (p p1 : Peer) {out : List PeerEvent × Peer}
    → told_all es [] p ≡ ([], p1)
    → told_all (fs ++ gs) [] p1 ≡ out
    → told_all ((es ++ fs) ++ gs) [] p ≡ out
after_silence es fs gs p p1 silent later =
    ap (λ l. told_all l [] p) (append_assoc es fs gs)
    ∙ told_all-append es (fs ++ gs) [] p
    ∙ ap (λ o. told_all (fs ++ gs) o.0 o.1) silent
    ∙ later

-- The rounds up to one of them, and what `poll` makes of the library's events of these rounds
abbrev ToldAll : Instant → List Round → Peer → List PeerEvent → Peer → Type 0
ToldAll end rounds p events p' =
    (used : List Round) × (last : Round) × (unused : List Round) × (rounds
      ≡ used ++ (last ∷ unused))
    × (told_all (said used ++ events_of last.outputs) [] p ≡ (events, p'))
    × ((events ≢ []) ⊎ (end ≤ last.at))

returned-ToldAll :
    (end : Instant) (rounds : List Round) (p p' : Peer) (events : List PeerEvent) (sent : Sent)
    → poll_loop end rounds p ≡ some ((ok events, p'), sent)
    → ToldAll end rounds p events p'
unfolding poll_loop
returned-ToldAll end [] p p' events sent went = absurd (ground arith)
returned-ToldAll end (r ∷ rounds) p p' events sent went =
    elim (Option-cases (drain_output r.outputs [] p)) [
      | inl going ↦ absurd (ground (arith, going))
      | inr (((err e, p1), out), lost) ↦ absurd (ground (arith, lost))
      | inr (((ok got, p1), out), drained) ↦
          let told = drain_output-told_all r.outputs [] got p p1 out drained in
          elim (Bool-cases (if is_empty got then leb end r.at else true)) [
            | inl stop ↦
                let out_eq : (got, p1) ≡ (events, p') = ground (arith, drained, stop) in
                (
                  [],
                  r,
                  rounds,
                  refl,
                  told ∙ out_eq,
                  subst (λ es. (es ≢ []) ⊎ (end ≤ r.at)) (ap (λ o. o.0) out_eq)
                      (enough got end r.at stop),
                )
            | inr more ↦
                let none_yet = nothing_told got end r.at more in
                elim (Result-cases (feed r)) [
                  | inl (x, failed) ↦ absurd (ground (arith, drained, more, failed))
                  | inr (x, fed) ↦ elim (Option-cases (poll_loop end rounds p1)) [
                    | inl going ↦ absurd (ground (arith, drained, more, fed, going))
                    | inr ((o, sent'), done) ↦
                        let same : o ≡ (ok events, p') = ground (arith, drained, more, fed, done) in
                        let (used, last, unused, split, later, why) =
                          returned-ToldAll end rounds p1 p' events sent'
                            (done ∙ ap (λ x. some (x, sent')) same) in
                        (
                          r ∷ used,
                          last,
                          unused,
                          ap (λ l. r ∷ l) split,
                          after_silence (events_of r.outputs) (said used) (events_of last.outputs) p
                              p1 (told ∙ ap (λ es. (es, p1)) none_yet) later,
                          why,
                        )
                  ]
                ]
          ]
    ]

-- The library comes to its `Timeout` or to an error.
abbrev pub Ends : List (Result Output (Unit {0})) → Type 0
Ends [] = ⊥
Ends (err _ ∷ more) = Unit
Ends (ok timeout ∷ more) = Unit
Ends (ok (transmit source to contents) ∷ more) = Ends more
Ends (ok (event e) ∷ more) = Ends more

-- The library comes to an end in every round up to one in which the time is up.
abbrev pub Timely : Instant → List Round → Type 0
Timely end [] = ⊥
Timely end (r ∷ rounds) = Ends r.outputs × ((end ≤ r.at) ⊎ Timely end rounds)

drain_output-Ends :
    (outputs : List (Result Output (Unit {0}))) (acc : List PeerEvent) (p : Peer)
    → Ends outputs
    → (x : (Result (List PeerEvent) TransportError × Peer) × Sent) × (drain_output outputs acc p
        ≡ some x)
unfolding drain_output
drain_output-Ends [] acc p never = absurd never
drain_output-Ends (err _ ∷ more) acc p soon = (((err TransportError.rtc, p), []), refl)
drain_output-Ends (ok timeout ∷ more) acc p soon = (((ok acc, p), []), refl)
drain_output-Ends (ok (transmit source to contents) ∷ more) acc p soon =
    let ((r, sent), done) = drain_output-Ends more acc p soon in
    ((r, transmit_from source to contents p ++ sent), ground (arith, done))
drain_output-Ends (ok (event e) ∷ more) acc p soon =
    drain_output-Ends more (push (map_event e p).0 acc) (map_event e p).1 soon

time_left :
    (got : List PeerEvent) (end at : Instant)
    → (if is_empty got then leb end at else true) ≡ false
    → end ≤ at
    → ⊥
time_left [] end at e over = absurd (ground arith)
time_left (x ∷ got) end at e over = absurd (ground arith)

poll_loop-Timely :
    (end : Instant) (rounds : List Round) (p : Peer)
    → Timely end rounds
    → (x : (Result (List PeerEvent) TransportError × Peer) × Sent) × (poll_loop end rounds p
        ≡ some x)
unfolding poll_loop
poll_loop-Timely end [] p never = absurd never
poll_loop-Timely end (r ∷ rounds) p (soon, later) =
    let (((found, p1), out), drain) = drain_output-Ends r.outputs [] p soon in
    elim (Result-cases found) [
      | inl (e, lost) ↦ (((err e, p1), out), ground (arith, drain, lost))
      | inr (got, good) ↦
          let drained = drain ∙ ap (λ o. some ((o, p1), out)) good in
          elim (Bool-cases (if is_empty got then leb end r.at else true)) [
            | inl stop ↦ (((ok got, p1), out), ground (arith, drained, stop))
            | inr more ↦ elim (Result-cases (feed r)) [
              | inl (e, failed) ↦ (((err e, p1), out), ground (arith, drained, more, failed))
              | inr (x, fed) ↦ elim later [
                | inl over ↦ absurd (time_left got end r.at more over)
                | inr still ↦
                    let ((o, sent), done) = poll_loop-Timely end rounds p1 still in
                    ((o, out ++ sent), ground (arith, drained, more, fed, done))
              ]
            ]
          ]
    ]

-- The rounds up to one of them, and what the library's events of these rounds mean to the peer, in
-- which only the control channel changes
abbrev pub Told : Instant → List Round → Peer → List PeerEvent → Peer → Type 0
Told end rounds p events p' =
    (used : List Round) × (last : Round) × (unused : List Round) × (rounds
      ≡ used ++ (last ∷ unused))
    × Means p.control (said used ++ events_of last.outputs) events p'.control
    × (p' ≡ record p { control = p'.control })
    × ((events ≢ []) ⊎ (end ≤ last.at))

ToldAll-Told :
    (end : Instant) (rounds : List Round) (p p' : Peer) (events : List PeerEvent)
    → ToldAll end rounds p events p'
    → Told end rounds p events p'
ToldAll-Told end rounds p p' events (used, last, unused, split, told, why) =
    let (means, rest) = told_all-Means (said used ++ events_of last.outputs) p p' events told in
    (used, last, unused, split, means, rest, why)

-- When the library comes to an end in every round up to one in which the time is up, then `poll`
-- returns: with an error, or with events. The events are then what the library's events of the rounds
-- that it went through mean to the peer, all of them and in their order; and there are none only when
-- the time is up in the last of these rounds.
pub poll_loop-Told :
    (end : Instant) (rounds : List Round) (p : Peer)
    → Timely end rounds
    → (r : Result (List PeerEvent) TransportError) × (p' : Peer) × (sent : Sent) × (poll_loop end
          rounds p
        ≡ some ((r, p'), sent))
      × (((e : TransportError) × (r ≡ err e))
          ⊎ ((events : List PeerEvent) × (r ≡ ok events) × Told end rounds p events p'))
poll_loop-Told end rounds p timely =
    let (((r, p'), sent), done) = poll_loop-Timely end rounds p timely in
    (
      r,
      p',
      sent,
      done,
      elim (Result-cases r) [
        | inl (e, failed) ↦ inl (e, failed)
        | inr (events, good) ↦ inr (
          events,
          good,
          ToldAll-Told end rounds p p' events (
              returned-ToldAll end rounds p p' events sent
                (done ∙ ap (λ o. some ((o, p'), sent)) good)),
        )
      ],
    )
