-- ===== src/Tests/Guard.antt =====
-- The theorems on the guard against guesses at concrete inputs.
use simple_remote.Base.{◌+◌, ◌-◌, ◌/◌, ◌^◌, ◌≤◌, ◌≡◌, refl, List, [], ◌∷◌, some, length, arith}
use simple_remote.Protocol.{Instant, from_secs}
use simple_remote.Host.Attempts.{AttemptLimiter, new, check, backoff_secs, record_failure}
use simple_remote.Host.Attempts.Backoff.{Guesses, guessing_takes_time}
use simple_remote.Host.Attempts.Rotation.{
  IsValid, Call, apply_all, apply_all-new-IsValid, rotations, rotations-new,
}

abbrev limiter : AttemptLimiter
limiter = record { consecutive_failures = 3; failures_on_code = 3; wait_until = some 5 }

abbrev guesses : List Instant
guesses = from_secs 2 ∷ from_secs 5 ∷ []

guesses-Guesses : Guesses new (from_secs 1 ∷ guesses)
unfolding new check record_failure backoff_secs
guesses-Guesses = (refl, (refl, (refl, tt)))

guessing_takes_time_example : from_secs 1 + from_secs (2 ^ 2 - 1) ≤ from_secs 5
guessing_takes_time_example =
    guessing_takes_time (from_secs 1) guesses (omega arith) guesses-Guesses

abbrev calls : List Call
calls = Call.failed 1 ∷ Call.succeeded ∷ Call.failed 2 ∷ []

apply_all-new-IsValid_example : IsValid (apply_all new calls)
apply_all-new-IsValid_example = apply_all-new-IsValid calls (omega arith)

abbrev six : List Instant
six = 1 ∷ 2 ∷ 3 ∷ 4 ∷ 5 ∷ 6 ∷ []

rotations-new_example : rotations new six ≡ length six / 5
rotations-new_example = rotations-new six (omega arith)
