-- ===== src/Console/Text/Decimal.antt =====
-- The decimal digits of a number are read back as that number.
use simple_remote.Base.{
  ℕ, zero, suc, ◌+◌, ◌*◌, ◌-◌, ◌/◌, ◌%◌, ◌<◌, ◌≡◌, refl, inl, inr, [], ◌∷◌, ◌++◌, arith, ltb,
  Bool-cases,
}
use simple_remote.Base.Text.{Str}
use simple_remote.Console.Text.{decimal, decimal_loop}

-- The number that digits stand for, behind those read already.
abbrev pub read_from : ℕ → Str → ℕ
read_from n [] = n
read_from n (d ∷ ds) = read_from (10 * n + (d - 48)) ds

read_from-append : (n d : ℕ) (s : Str) → read_from n (s ++ (d ∷ [])) ≡ 10 * read_from n s + (d - 48)
read_from-append n d [] = refl
read_from-append n d (c ∷ s) = read_from-append (10 * n + (c - 48)) d s

read_from-decimal_loop : (fuel n : ℕ) → n < fuel → read_from 0 (decimal_loop fuel n) ≡ n
unfolding decimal_loop
read_from-decimal_loop zero n small = absurd (omega arith)
read_from-decimal_loop (suc fuel) n small = elim (Bool-cases (ltb n 10)) [
  | inl digit ↦ rw (digit) (omega arith)
  | inr more ↦
      rw
        (
          more,
          read_from-append 0 (48 + n % 10) (decimal_loop fuel (n / 10)),
          read_from-decimal_loop fuel (n / 10) (ground arith),
        )
        (omega arith)
]

-- The digits that are printed for a number are those of that number.
pub read_from-decimal : (n : ℕ) → read_from 0 (decimal n) ≡ n
unfolding decimal
read_from-decimal n = read_from-decimal_loop (suc n) n (omega arith)
