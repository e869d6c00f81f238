-- ===== src/Host/Attempts/Backoff.antt =====
-- How long the limiter makes a guesser wait.
use native.Mathlib.Nat.{pow-suc, pow-le-pow_right}
use simple_remote.Base.{
  ℕ, suc, ◌+◌, ◌-◌, ◌*◌, ◌^◌, ◌≤◌, ◌<◌, ◌≡◌, refl, ◌↔◌, ok, some, List, [], ◌∷◌, arith, min, inl,
  inr, Bool-cases, leb, length, ap, ◌∙◌,
}
use simple_remote.Protocol.{Instant, from_secs}
use simple_remote.Host.Attempts.{AttemptLimiter, u32, new, check, backoff_secs, record_failure}

-- Powers of two below the cap.
pow_le_cap : (k : ℕ) → k ≤ 16 → 2 ^ k ≤ 65536
pow_le_cap k h = pow-le-pow_right {n = 2} (omega arith) h

backoff_small : (k : ℕ) → k ≤ 16 → backoff_secs (suc k) ≡ 2 ^ k
unfolding backoff_secs
backoff_small k h =
    let e : u32 (suc k + 4294967295) ≡ k = omega arith in rw e (ground (arith, pow_le_cap k h))

backoff_large : (k : ℕ) → 17 ≤ k → k < 4294967295 → backoff_secs (suc k) ≡ 86400
unfolding backoff_secs
backoff_large k h c = let e : u32 (suc k + 4294967295) ≡ k = omega arith in rw e (ground arith)

-- The `n`-th failure in a row is followed by `2 ^ (n - 1)` seconds, or a day when that is shorter.
pub backoff_secs_lem : (k : ℕ) → k < 4294967295 → backoff_secs (suc k) ≡ min (2 ^ k) 86400
backoff_secs_lem k c = elim (Bool-cases (leb k 16)) [
  | inl small ↦ ground (arith, backoff_small k, pow_le_cap k)
  | inr large ↦
      ground (arith, backoff_large k, pow-le-pow_right {n = 2} (omega arith) {i = 17} {j = k})
]

-- The wait of each failure in a row is the double of the one before, up to a day.
pub backoff_doubles :
    (k : ℕ) → k < 4294967294 → backoff_secs (suc (suc k)) ≡ min (2 * backoff_secs (suc k)) 86400
backoff_doubles k h = ground (arith, backoff_secs_lem k, backoff_secs_lem (suc k), pow-suc 2 k)

-- What a failure leaves behind for the next check.
pub wait_until-record_failure :
    (l : AttemptLimiter) (now : Instant)
    → l.consecutive_failures < 4294967295
    → (record_failure l now).1.wait_until
      ≡ some (now + from_secs (min (2 ^ l.consecutive_failures) 86400))
unfolding record_failure
wait_until-record_failure l now c =
    let e : u32 (l.consecutive_failures + 1) ≡ suc l.consecutive_failures = omega arith in
    rw (e, backoff_secs_lem l.consecutive_failures c) refl

pub check_until :
    (l : AttemptLimiter) (until later : Instant)
    → l.wait_until ≡ some until
    → (check l later ≡ ok tt) ↔ (until ≤ later)
unfolding check
check_until l until later e = rw (e, check) (ground arith)

-- After a failure at `now`, `check` passes at a time exactly when that time is at least
-- `min (2 ^ failures) 86400` seconds after `now`, where `failures` counts those in a row before it.
pub check-record_failure :
    (l : AttemptLimiter) (now later : Instant)
    → l.consecutive_failures < 4294967295
    → (check (record_failure l now).1 later ≡ ok tt)
      ↔ (now + from_secs (min (2 ^ l.consecutive_failures) 86400) ≤ later)
check-record_failure l now later c = check_until _ _ later (wait_until-record_failure l now c)

-- Every guess of the list is made when `check` passes, and each is counted as a failure.
abbrev pub Guesses : AttemptLimiter → List Instant → Type 0
Guesses l [] = Unit
Guesses l (t ∷ ts) = (check l t ≡ ok tt) × Guesses (record_failure l t).1 ts

abbrev pub final : Instant → List Instant → Instant
final t [] = t
final t (u ∷ ts) = final u ts

failures-record_failure :
    (l : AttemptLimiter) (t : Instant)
    → l.consecutive_failures < 4294967295
    → (record_failure l t).1.consecutive_failures ≡ suc l.consecutive_failures
unfolding record_failure
failures-record_failure l t c = omega arith

Guesses-from :
    (l : AttemptLimiter) (c k : ℕ) (t : Instant) (ts : List Instant)
    → l.consecutive_failures ≡ c
    → c + length ts ≡ k
    → k ≤ 17
    → Guesses l (t ∷ ts)
    → t + from_secs (2 ^ k) ≤ final t ts + from_secs (2 ^ c)
Guesses-from l c k t [] e sum h g = let same : k ≡ c = omega arith in rw same (omega arith)
Guesses-from l c k t (u ∷ ts) e sum h g =
    let waited = (check-record_failure l t u (omega arith)).0 g.1.0 in
    let rest =
      Guesses-from (record_failure l t).1 (suc c) k u ts
        (failures-record_failure l t (omega arith) ∙ ap suc e) (omega arith) h g.1 in
    ground (arith, waited, rest, e, pow_le_cap c, pow-suc 2 c)

-- A guesser who starts afresh and fails `k + 1` times in a row, `k` at most 17, needs at least
-- `2 ^ k - 1` seconds for it, whatever the moments of the guesses.
pub guessing_takes_time :
    (t : Instant) (ts : List Instant)
    → length ts ≤ 17
    → Guesses new (t ∷ ts)
    → t + from_secs (2 ^ length ts - 1) ≤ final t ts
unfolding new
guessing_takes_time t ts h g =
    let positive = pow-le-pow_right {n = 2} (omega arith) {i = 0} {j = length ts} (omega arith) in
    omega (arith, Guesses-from new 0 (length ts) t ts refl (omega arith) h g, positive)
