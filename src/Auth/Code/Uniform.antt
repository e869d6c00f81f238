-- ===== src/Auth/Code/Uniform.antt =====
-- The generator's distribution: every code comes from the same number of accepted draws.
use simple_remote.Base.{
  ℕ, ◌+◌, ◌-◌, ◌*◌, ◌/◌, ◌%◌, ◌<◌, ◌≡◌, ◌↔◌, inl, inr, true, Option, none, some, List, [], ◌∷◌, ltb,
  arith, Bool-cases, any_of, ap, sym, ◌∙◌,
}
use simple_remote.Base.Text.{Bytes, Str}
use simple_remote.Base.Words.{from_be}
use simple_remote.Auth.Code.{OneTimeCode, limit, six_digits, generate}

-- The number that six digits write.
abbrev number : Str → ℕ
number [] = 0
number (a ∷ []) = 0
number (a ∷ b ∷ []) = 0
number (a ∷ b ∷ c ∷ []) = 0
number (a ∷ b ∷ c ∷ d ∷ []) = 0
number (a ∷ b ∷ c ∷ d ∷ e ∷ []) = 0
number (a ∷ b ∷ c ∷ d ∷ e ∷ f ∷ rest) =
    (a - 48) * 100000
    + (b - 48) * 10000
    + (c - 48) * 1000
    + (d - 48) * 100
    + (e - 48) * 10
    + (f - 48)

number-six_digits : (v : ℕ) → v < 1000000 → number (six_digits v) ≡ v
unfolding six_digits
number-six_digits v h = omega arith

digits_of : Option (OneTimeCode × List Bytes) → ℕ
digits_of none = 0
digits_of (some (c, more)) = number c.digits

accepted_draw :
    (buf : Bytes) (more : List Bytes)
    → from_be buf < limit
    → generate (buf ∷ more) ≡ some (record { digits = six_digits (from_be buf % 1000000) }, more)
unfolding generate
accepted_draw buf more h = ground arith

-- Among the draws below the limit, the code of `v`, a number below a million, comes from the 4294
-- numbers `v + 1000000 * k` with `k < 4294` and no others: no code is likelier than another.
pub generate_uniform :
    (buf : Bytes) (more : List Bytes) (v : ℕ)
    → from_be buf < limit
    → v < 1000000
    → (generate (buf ∷ more) ≡ some (record { digits = six_digits v }, more))
      ↔ ((k : ℕ) × (k < 4294) × (from_be buf ≡ v + 1000000 * k))
unfolding digits_of
generate_uniform buf more v low h =
    let n = from_be buf in
    let drawn = accepted_draw buf more low in
    (
      λ e.
          let same : n % 1000000 ≡ v =
            sym (number-six_digits (n % 1000000) (omega arith))
            ∙ ap digits_of (sym drawn ∙ e)
            ∙ number-six_digits v h in
          (n / 1000000, omega arith, omega arith),
      λ p.
          let same : n % 1000000 ≡ v = omega (arith, p.1, p.2) in
          drawn ∙ ap (λ (w : ℕ). some (record { digits = six_digits w }, more)) same,
    )

-- `generate` returns if one of the draws lies below the limit.
pub generate_returns :
    (draws : List Bytes)
    → any_of (λ buf. ltb (from_be buf) limit) draws ≡ true
    → (r : OneTimeCode × List Bytes) × (generate draws ≡ some r)
unfolding generate
generate_returns [] h = cc
generate_returns (buf ∷ draws) h = elim (Bool-cases (ltb (from_be buf) limit)) [
  | inl taken ↦ ((record { digits = six_digits (from_be buf % 1000000) }, draws), rw taken)
  | inr refused ↦ rw refused (generate_returns draws (ground arith))
]
