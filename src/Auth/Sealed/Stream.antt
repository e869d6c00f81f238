-- ===== src/Auth/Sealed/Stream.antt =====
-- Sequences of sealed messages: order, replay, and the two directions of a session.
use simple_remote.Base.{
  subst, ℕ, ◌+◌, ◌≤◌, ◌<◌, ◌≡◌, inl, inr, Option, none, some, List, [], ◌∷◌, map, Result, ok, err,
  length, take, drop, Bool-cases, Option-cases, ◌==◌, arith, ap, sym,
}
use simple_remote.Base.Text.{Bytes}
use simple_remote.Base.Words.{from_be}
use simple_remote.Auth.Error.{AuthError, bad_seal}
use simple_remote.Auth.Sealed.{
  Aead, IsAead, SealedSender, SealedReceiver, SessionKeys, u64_max, nonce_for, frame, seal,
  open_sealed, viewer_side, host_side,
}
use simple_remote.Auth.Sealed.Laws.{open_frame}

module _ (aead : Aead) where
  -- The frames of a list of plaintexts, under the counters from `n` on.
  abbrev frames : Bytes → Bytes → ℕ → List Bytes → List Bytes
  frames key label n [] = []
  frames key label n (p ∷ ps) = frame aead key label n p ∷ frames key label (n + 1) ps

  abbrev pub seal_all : SealedSender → List Bytes → Option (List Bytes × SealedSender)
  seal_all s [] = some ([], s)
  seal_all s (p ∷ ps) = elim (seal aead s p) [
    | none ↦ none
    | some (m, s') ↦ elim (seal_all s' ps) [ none ↦ none | some (ms, s'') ↦ some (m ∷ ms, s'') ]
  ]

  abbrev pub open_all :
      SealedReceiver → List Bytes → Option (List (Result Bytes AuthError) × SealedReceiver)
  open_all r [] = some ([], r)
  open_all r (m ∷ ms) = elim (open_sealed aead r m) [
    | none ↦ none
    | some (a, r') ↦ elim (open_all r' ms) [ none ↦ none | some (as', r'') ↦ some (a ∷ as', r'') ]
  ]

  seal-frame :
      (s : SealedSender) (p : Bytes)
      → s.counter < u64_max
      → seal aead s p
        ≡ some (frame aead s.key s.label s.counter p, record s { counter = s.counter + 1 })
  unfolding seal
  seal-frame s p h = ground arith

  seal_all-frames :
      (s : SealedSender) (ps : List Bytes)
      → s.counter + length ps ≤ u64_max
      → seal_all s ps
        ≡ some (frames s.key s.label s.counter ps, record s { counter = s.counter + length ps })
  seal_all-frames s [] h =
      let same : s.counter + 0 ≡ s.counter = omega arith in
      ap (λ (n : ℕ). some ([], record s { counter = n })) (sym same)
  seal_all-frames s (p ∷ ps) h =
      let s' : SealedSender = record s { counter = s.counter + 1 } in
      let rest = seal_all-frames s' ps (omega arith) in
      ground (arith, seal-frame s p (omega arith), rest)

module _ (aead : Aead) (law : IsAead aead) where
  open_all-frames :
      (r : SealedReceiver) (ps : List Bytes)
      → r.expected_counter + length ps ≤ u64_max
      → open_all aead r (frames aead r.key r.label r.expected_counter ps)
        ≡ some (map ok ps, record r { expected_counter = r.expected_counter + length ps })
  open_all-frames r [] h =
      let same : r.expected_counter + 0 ≡ r.expected_counter = omega arith in
      ap (λ (n : ℕ). some ([], record r { expected_counter = n })) (sym same)
  open_all-frames r (p ∷ ps) h =
      let r' : SealedReceiver = record r { expected_counter = r.expected_counter + 1 } in
      let rest = open_all-frames r' ps (omega arith) in
      ground (arith, open_frame aead law r p (omega arith), rest)

-- The number at the head of a message
abbrev pub counter_of : Bytes → ℕ
counter_of msg = from_be (take 8 msg)

module _ (aead : Aead) where
  -- A message that was opened had the expected number, and the next one is expected then.
  opened-counter_of :
      (r r' : SealedReceiver) (msg p : Bytes)
      → open_sealed aead r msg ≡ some (ok p, r')
      → (counter_of msg ≡ r.expected_counter) × (r'.expected_counter ≡ r.expected_counter + 1)
  unfolding open_sealed
  opened-counter_of r r' msg p e = elim (Bool-cases (counter_of msg == r.expected_counter)) [
    | inr other ↦ absurd (ground (arith, other))
    | inl same ↦
        elim (Option-cases (aead.decrypt r.key (nonce_for (counter_of msg)) r.label (drop 8 msg))) [
          | inl failed ↦ absurd (ground (arith, same, failed))
          | inr (q, good) ↦ (ground (arith, same), ground (arith, same, good))
        ]
  ]

  -- No call takes the expected number back.
  open_sealed-forward :
      (r r' : SealedReceiver) (msg : Bytes) (a : Result Bytes AuthError)
      → open_sealed aead r msg ≡ some (a, r')
      → r.expected_counter ≤ r'.expected_counter
  unfolding open_sealed
  open_sealed-forward r r' msg a e =
      elim (Option-cases (aead.decrypt r.key (nonce_for (counter_of msg)) r.label (drop 8 msg))) [
        | inl failed ↦ ground (arith, failed)
        | inr (q, good) ↦ ground (arith, good)
      ]

  open_all-forward :
      (ms : List Bytes) (r r' : SealedReceiver) (answers : List (Result Bytes AuthError))
      → open_all aead r ms ≡ some (answers, r')
      → r.expected_counter ≤ r'.expected_counter
  open_all-forward [] r r' answers e = ground arith
  open_all-forward (m ∷ ms) r r' answers e = elim (Option-cases (open_sealed aead r m)) [
    | inl panics ↦ absurd (ground (arith, panics))
    | inr ((a, r1), one) ↦ elim (Option-cases (open_all aead r1 ms)) [
      | inl panics ↦ absurd (ground (arith, one, panics))
      | inr ((as', r2), rest) ↦
          let same : r2 ≡ r' = ground (arith, one, rest) in
          let first = open_sealed-forward r r1 m a one in
          let later = open_all-forward ms r1 r2 as' rest in
          subst (λ x. r.expected_counter ≤ x.expected_counter) same (omega (arith, first, later))
    ]
  ]

  other_refused :
      (r : SealedReceiver) (msg : Bytes)
      → counter_of msg < r.expected_counter
      → open_sealed aead r msg ≡ some (err bad_seal, r)
  unfolding open_sealed
  other_refused r msg h = ground arith

  -- A message that was opened is refused whenever it comes again, whatever messages the receiver has
  -- been given since, opened or refused; and the refusal changes nothing.
  pub replay_refused :
      (r r' r'' : SealedReceiver) (msg p : Bytes) (between : List Bytes)
      (answers : List (Result Bytes AuthError))
      → open_sealed aead r msg ≡ some (ok p, r')
      → open_all aead r' between ≡ some (answers, r'')
      → open_sealed aead r'' msg ≡ some (err bad_seal, r'')
  replay_refused r r' r'' msg p between answers e since =
      let (number, next) = opened-counter_of r r' msg p e in
      let forward = open_all-forward between r' r'' answers since in
      other_refused r'' msg (omega (arith, number, next, forward))

-- What one side of a session seals, the other opens: any number of messages below the last counter,
-- in order, each once, from viewer to host and from host to viewer.
pub session_stream :
    (aead : Aead) (law : IsAead aead) (keys : SessionKeys) (ps : List Bytes)
    → length ps ≤ u64_max
    → let (vs, vr) = viewer_side keys in
      let (hs, hr) = host_side keys in
      ((ms : List Bytes) × (s : SealedSender) × (r : SealedReceiver) × (seal_all aead vs ps
          ≡ some (ms, s))
        × (open_all aead hr ms ≡ some (map ok ps, r)))
      × ((ms : List Bytes) × (s : SealedSender) × (r : SealedReceiver) × (seal_all aead hs ps
            ≡ some (ms, s))
          × (open_all aead vr ms ≡ some (map ok ps, r)))
unfolding viewer_side host_side
session_stream aead law keys ps h =
    let (vs, vr) = viewer_side keys in
    let (hs, hr) = host_side keys in
    (
      (
        frames aead vs.key vs.label 0 ps,
        record vs { counter = 0 + length ps },
        record hr { expected_counter = 0 + length ps },
        seal_all-frames aead vs ps (omega arith),
        open_all-frames aead law hr ps (omega arith),
      ),
      (
        frames aead hs.key hs.label 0 ps,
        record hs { counter = 0 + length ps },
        record vr { expected_counter = 0 + length ps },
        seal_all-frames aead hs ps (omega arith),
        open_all-frames aead law vr ps (omega arith),
      ),
    )
