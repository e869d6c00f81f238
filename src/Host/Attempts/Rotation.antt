-- ===== src/Host/Attempts/Rotation.antt =====
-- How many failures one code can take.
use simple_remote.Base.{
  ℕ, suc, ◌+◌, ◌/◌, ◌≤◌, ◌<◌, ◌≡◌, List, [], ◌∷◌, arith, length, if◌then◌else◌,
}
use simple_remote.Protocol.{Instant}
use simple_remote.Host.Attempts.{AttemptLimiter, new, record_failure, record_success}

-- Fewer than five failures stand against the current code, and none that is not counted in a row.
pub record IsValid (l : AttemptLimiter) : Type 0 where
  pub on_code_small : l.failures_on_code ≤ 4
  pub on_code_counted : l.failures_on_code ≤ l.consecutive_failures

pub new-IsValid : IsValid new
unfolding new
new-IsValid = ground arith

-- The calls that change a limiter.
pub data Call : Type 0 where
  failed : Instant → Call
  succeeded : Call

abbrev pub apply : AttemptLimiter → Call → AttemptLimiter
apply l (failed t) = (record_failure l t).1
apply l succeeded = record_success l

abbrev pub apply_all : AttemptLimiter → List Call → AttemptLimiter
apply_all l [] = l
apply_all l (c ∷ cs) = apply_all (apply l c) cs

apply-bounds :
    (l : AttemptLimiter) (c : Call)
    → IsValid l
    → l.consecutive_failures < 4294967295
    → IsValid (apply l c) × ((apply l c).consecutive_failures ≤ suc l.consecutive_failures)
unfolding record_failure record_success
apply-bounds l (failed t) v h = ground arith
apply-bounds l succeeded v h = ground arith

apply_all-IsValid :
    (l : AttemptLimiter) (cs : List Call)
    → IsValid l
    → l.consecutive_failures + length cs ≤ 4294967295
    → IsValid (apply_all l cs)
apply_all-IsValid l [] v h = v
apply_all-IsValid l (c ∷ cs) v h =
    let (v', step) = apply-bounds l c v (omega arith) in
    apply_all-IsValid (apply l c) cs v' (omega arith)

-- After any sequence of at most `2 ^ 32 - 1` failures and successes, at most four failures stand
-- against the current code, and no more than the failures in a row.
pub apply_all-new-IsValid : (cs : List Call) → length cs ≤ 4294967295 → IsValid (apply_all new cs)
unfolding new
apply_all-new-IsValid cs h = apply_all-IsValid new cs new-IsValid (omega arith)

abbrev pub rotations : AttemptLimiter → List Instant → ℕ
rotations l [] = 0
rotations l (t ∷ ts) =
    let rest = rotations (record_failure l t).1 ts in
    if (record_failure l t).0.rotate_code then suc rest else rest

rotations_from :
    (l : AttemptLimiter) (ts : List Instant)
    → IsValid l
    → l.consecutive_failures + length ts ≤ 4294967295
    → rotations l ts ≡ (l.failures_on_code + length ts) / 5
unfolding record_failure
rotations_from l [] v h = ground arith
rotations_from l (t ∷ ts) v h =
    let (v', step) = apply-bounds l (failed t) v (omega arith) in
    ground (arith, rotations_from (record_failure l t).1 ts v' (omega arith))

-- With no success in between, the code is replaced at every fifth failure: `k` failures in a row
-- from a fresh limiter ask for `k / 5` new codes, as long as the counter does not wrap.
pub rotations-new : (ts : List Instant) → length ts ≤ 4294967295 → rotations new ts ≡ length ts / 5
unfolding new
rotations-new ts h = ground (arith, rotations_from new ts new-IsValid (omega arith))
