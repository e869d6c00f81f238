-- ===== src/Auth/Sealed/Laws.antt =====
-- Which messages a receiver opens.
use simple_remote.Base.{
  ℕ, ◌+◌, ◌≤◌, ◌<◌, ◌≡◌, ◌≢◌, refl, inl, inr, some, [], ◌∷◌, ◌++◌, ok, err, length, take, drop, All,
  arith, Bool-cases, Option-cases, ◌==◌, ==_iff, ◌⊎◌, ltb, sym, ap, ◌∙◌,
}
use simple_remote.Base.Text.{Bytes}
use simple_remote.Base.Words.{u64_to_be, from_be, u64_to_be-from_be, from_be-u64_to_be}
use simple_remote.Auth.Error.{bad_seal}
use simple_remote.Auth.Sealed.{Aead, IsAead, SealedReceiver, u64_max, nonce_for, frame, open_sealed}

abbrev pub IsBytes : Bytes → Type 0
IsBytes = All (λ b. b < 256)

-- A message with eight bytes or more is the number at its head and the rest.
split_counter :
    (m : Bytes) → IsBytes m → 8 ≤ length m → m ≡ u64_to_be (from_be (take 8 m)) ++ drop 8 m
split_counter [] bytes h = absurd (omega arith)
split_counter (a ∷ []) bytes h = absurd (omega arith)
split_counter (a ∷ b ∷ []) bytes h = absurd (omega arith)
split_counter (a ∷ b ∷ c ∷ []) bytes h = absurd (omega arith)
split_counter (a ∷ b ∷ c ∷ d ∷ []) bytes h = absurd (omega arith)
split_counter (a ∷ b ∷ c ∷ d ∷ e ∷ []) bytes h = absurd (omega arith)
split_counter (a ∷ b ∷ c ∷ d ∷ e ∷ f ∷ []) bytes h = absurd (omega arith)
split_counter (a ∷ b ∷ c ∷ d ∷ e ∷ f ∷ g ∷ []) bytes h = absurd (omega arith)
split_counter (a ∷ b ∷ c ∷ d ∷ e ∷ f ∷ g ∷ i ∷ rest)
      (ha, (hb, (hc, (hd, (he, (hf, (hg, (hi, _)))))))) h =
    ap (λ bs. bs ++ rest) (sym (u64_to_be-from_be a b c d e f g i ha hb hc hd he hf hg hi))

pub take-frame : (n : ℕ) (rest : Bytes) → take 8 (u64_to_be n ++ rest) ≡ u64_to_be n
unfolding u64_to_be
take-frame n rest = refl

drop-frame : (n : ℕ) (rest : Bytes) → drop 8 (u64_to_be n ++ rest) ≡ rest
unfolding u64_to_be
drop-frame n rest = refl

length-counter : (n : ℕ) (rest : Bytes) → length (u64_to_be n ++ rest) ≡ 8 + length rest
unfolding u64_to_be
length-counter n rest = omega arith

-- The receiver's answer when the next counter exists.
module _ (aead : Aead) (law : IsAead aead) where
  pub open_frame :
      (r : SealedReceiver) (p : Bytes)
      → r.expected_counter < u64_max
      → open_sealed aead r (frame aead r.key r.label r.expected_counter p)
        ≡ some (ok p, record r { expected_counter = r.expected_counter + 1 })
  unfolding open_sealed frame
  open_frame r p h =
      let n = r.expected_counter in
      let nonce = nonce_for n in
      let body = aead.encrypt r.key nonce r.label p in
      ground (
        arith,
        take-frame n body,
        drop-frame n body,
        length-counter n body,
        from_be-u64_to_be n (omega arith),
        law.length-encrypt r.key nonce r.label p,
        law.decrypt-encrypt r.key nonce r.label p,
      )

  -- Whatever the answer, it is a refusal that changes nothing, or the message is the next frame.
  open_cases :
      (r : SealedReceiver) (msg : Bytes)
      → IsBytes msg
      → r.expected_counter < u64_max
      → ((p : Bytes) × (msg ≡ frame aead r.key r.label r.expected_counter p))
        ⊎ (open_sealed aead r msg ≡ some (err bad_seal, r))
  unfolding open_sealed frame
  open_cases r msg bytes h =
      let nonce = nonce_for (from_be (take 8 msg)) in
      elim (Option-cases (aead.decrypt r.key nonce r.label (drop 8 msg))) [
        | inl failed ↦ inr (ground arith)
        | inr (p, opened) ↦ elim (Bool-cases (ltb (length msg) 24)) [
          | inl short ↦ inr (ground arith)
          | inr long ↦ elim (Bool-cases (from_be (take 8 msg) == r.expected_counter)) [
            | inr other ↦ inr (ground arith)
            | inl same ↦ inl (
              p,
              cc (
                split_counter msg bytes (ground arith),
                law.decrypt_sound r.key nonce r.label (drop 8 msg) p opened,
                (==_iff (from_be (take 8 msg)) r.expected_counter).0 same,
              ),
            )
          ]
        ]
      ]

  -- A receiver that has not come to the last counter opens a message exactly when it is the frame
  -- of the expected counter for some plaintext, made with the receiver's key and label; it returns
  -- that plaintext and expects the next counter. In all other cases the answer is `BadSeal`, and
  -- the receiver is as it was.
  pub open_exactly_next :
      (r : SealedReceiver) (msg : Bytes)
      → IsBytes msg
      → r.expected_counter < u64_max
      → ((p : Bytes) × (msg ≡ frame aead r.key r.label r.expected_counter p)
          × (open_sealed aead r msg
              ≡ some (ok p, record r { expected_counter = r.expected_counter + 1 })))
        ⊎ (((p : Bytes) → msg ≢ frame aead r.key r.label r.expected_counter p)
            × (open_sealed aead r msg ≡ some (err bad_seal, r)))
  open_exactly_next r msg bytes h = elim (open_cases r msg bytes h) [
    | inl (p, e) ↦ inl (p, e, ap (open_sealed aead r) e ∙ open_frame r p h)
    | inr refused ↦ inr (λ p e. cc (refused, ap (open_sealed aead r) e, open_frame r p h), refused)
  ]
