-- ===== src/Host/Attempts.antt =====
-- apps/host-agent/src/attempts.rs: the back-off on guesses of the code.
-- Counters are `u32` and wrap, as in a release build. An `Instant` plus a `Duration` is a sum.
pub mod Backoff
pub mod Rotation
use simple_remote.Base.{
  ℕ, ◌+◌, ◌-◌, ◌^◌, ◌%◌, min, Bool, Option, none, some, Result, ok, err, ltb, leb, if◌then◌else◌,
}
use simple_remote.Protocol.{Duration, Instant, from_secs}

pub record AttemptLimiter : Type 0 where
  pub consecutive_failures : ℕ
  pub failures_on_code : ℕ
  pub wait_until : Option Instant

pub record FailureOutcome : Type 0 where
  pub rotate_code : Bool

abbrev pub u32 : ℕ → ℕ
u32 n = n % 4294967296

-- `AttemptLimiter::new` and `Default::default`
unfoldable pub new : AttemptLimiter
new = record { consecutive_failures = 0; failures_on_code = 0; wait_until = none }

unfoldable pub check : AttemptLimiter → Instant → Result (Unit {0}) Duration
check l now = elim l.wait_until [
  | none ↦ ok tt
  | some until ↦ if ltb now until then err (until - now) else ok tt
]

-- The seconds to wait after the `n`-th failure in a row: `1u64 << (n - 1)`, at most a day. The
-- subtraction is that of `u32`.
unfoldable pub backoff_secs : ℕ → ℕ
backoff_secs n = let m = u32 (n + 4294967295) in if leb 17 m then 86400 else min (2 ^ m) 86400

unfoldable pub record_failure : AttemptLimiter → Instant → FailureOutcome × AttemptLimiter
unfolding backoff_secs
record_failure l now =
    let n = u32 (l.consecutive_failures + 1) in
    let on_code = u32 (l.failures_on_code + 1) in
    let rotate = leb 5 on_code in
    (
      record { rotate_code = rotate },
      record {
        consecutive_failures = n;
        failures_on_code = if rotate then 0 else on_code;
        wait_until = some (now + from_secs (backoff_secs n));
      },
    )

unfoldable pub record_success : AttemptLimiter → AttemptLimiter
record_success l = record { consecutive_failures = 0; failures_on_code = 0; wait_until = none }
