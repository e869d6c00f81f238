-- ===== src/Console/ViewerApp/Shown.antt =====
-- What a run of the viewer shows: its lines on success, and the seconds of a wait.
use simple_remote.Base.{
  ℕ, ◌+◌, ◌/◌, ◌-◌, ◌≤◌, ◌<◌, ◌≡◌, refl, inl, inr, some, ok, err, arith, ltb, false, ◌*◌,
  Bool-cases, min,
}
use simple_remote.Protocol.{Duration, Instant, from_secs, from_millis}
use simple_remote.Host.Attempts.{AttemptLimiter, check, record_failure, backoff_secs, u32}
use simple_remote.Host.Attempts.Backoff.{check_until}
use simple_remote.Host.Session.Attempt.{retry_ms}
use simple_remote.Console.ViewerApp.{shown_secs}

backoff_secs_bound : (n : ℕ) → backoff_secs n ≤ 86400
unfolding backoff_secs
backoff_secs_bound n = ground arith

retry_ms_bounds :
    (wait : Duration)
    → wait ≤ from_secs 86400
    → (wait ≤ from_millis (retry_ms wait)) × (from_millis (retry_ms wait) ≤ wait + 999999)
unfolding retry_ms
retry_ms_bounds wait day =
    let ms = (wait + 999999) / 1000000 in
    let low : wait ≤ ms * 1000000 = omega arith in
    let high : ms * 1000000 ≤ wait + 999999 = omega arith in
    let same : min ms 18446744073709551615 ≡ ms = ground arith in rw (same) (low, high)

shown_secs_bounds :
    (ms : ℕ)
    → 0 < ms
    → (from_millis ms ≤ from_secs (shown_secs (from_millis ms)))
      × (from_secs (shown_secs (from_millis ms)) ≤ from_millis ms + 999000000)
      × (1 ≤ shown_secs (from_millis ms))
unfolding shown_secs
shown_secs_bounds ms some_time =
    let exact : from_millis ms / 1000000 ≡ ms = omega arith in
    let secs = (ms + 999) / 1000 in
    let one : 1 ≤ secs = omega arith in
    let low : ms * 1000000 ≤ secs * 1000000000 = omega arith in
    let high : secs * 1000000000 ≤ ms * 1000000 + 999000000 = omega arith in
    let same : ltb secs 1 ≡ false = ground arith in rw (exact, same) (low, high, one)

wait_until_after :
    (l : AttemptLimiter) (failed : Instant)
    → (record_failure l failed).1.wait_until
      ≡ some (failed + from_secs (backoff_secs (u32 (l.consecutive_failures + 1))))
unfolding record_failure
wait_until_after l failed = refl

refused_wait :
    (l : AttemptLimiter) (until now : Instant) (wait : Duration)
    → l.wait_until ≡ some until
    → check l now ≡ err wait
    → (now + wait ≡ until) × (now < until)
unfolding check
refused_wait l until now wait set refused = elim (Bool-cases (ltb now until)) [
  | inl early ↦
      let same : wait ≡ until - now = ground (arith, set) in
      let soon : now < until = ground arith in (omega arith, soon)
  | inr late ↦ absurd (ground (arith, set))
]

-- A guess refused after a failure tells the viewer to wait some seconds, from 1 to 86400. The user
-- who waits that long from the refusal finds the host ready, and waits less than a second too long.
pub shown_wait_suffices :
    (l : AttemptLimiter) (failed now : Instant) (wait : Duration)
    → failed ≤ now
    → check (record_failure l failed).1 now ≡ err wait
    → (1 ≤ shown_secs (from_millis (retry_ms wait)))
      × (shown_secs (from_millis (retry_ms wait)) ≤ 86400)
      × ((later : Instant)
          → now + from_secs (shown_secs (from_millis (retry_ms wait))) ≤ later
          → check (record_failure l failed).1 later ≡ ok tt)
      × (from_secs (shown_secs (from_millis (retry_ms wait))) < wait + from_secs 1)
shown_wait_suffices l failed now wait before refused =
    let secs = backoff_secs (u32 (l.consecutive_failures + 1)) in
    let until = failed + from_secs secs in
    let after = (record_failure l failed).1 in
    let set : after.wait_until ≡ some until = wait_until_after l failed in
    let (rest, early) = refused_wait after until now wait set refused in
    let day = backoff_secs_bound (u32 (l.consecutive_failures + 1)) in
    let (ms_low, ms_high) = retry_ms_bounds wait (omega arith) in
    let (low, high, one) = shown_secs_bounds (retry_ms wait) (omega arith) in
    (
      one,
      omega arith,
      λ later soon. (check_until after until later set).1 (omega arith),
      omega arith,
    )
