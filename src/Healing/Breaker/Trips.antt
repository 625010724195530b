-- ===== src/Healing/Breaker/Trips.antt =====
-- When the circuit breaker lets a call through.
use ganglion_oob.Prelude.{
  ℕ, ◌+◌, ◌≡◌, ◌∙◌, ◌<◌, refl, ap, true, false, List, [], ◌∷◌, leb, if◌then◌else◌, arith, length,
  Bool-cases, inl, inr,
}
use ganglion_oob.Healing.Breaker.{
  closed, opened, half_open, CircuitBreaker, record_failure, allow, fail_all, Event, failed_at,
  asked_at, handle, handle_all,
}

open_stays : (ts : List ℕ) (b : CircuitBreaker) → b.state ≡ opened → (fail_all ts b).state ≡ opened
unfolding fail_all record_failure
open_stays [] b e = e
open_stays (t ∷ ts) b e = open_stays ts (record_failure t b) (ground (arith, e))

-- Tripping: a closed breaker whose count is below its threshold is open after further failures if and
-- only if they bring the count to the threshold; before that it stays closed.
pub fail_all-trips :
    (ts : List ℕ) (b : CircuitBreaker)
    → b.state ≡ closed
    → b.failures < b.fail_threshold
    → (fail_all ts b).state
      ≡ (if leb b.fail_threshold (b.failures + length ts) then opened else closed)
unfolding fail_all record_failure
fail_all-trips [] b e below = ground (arith, e)
fail_all-trips (t ∷ ts) b e below = elim (Bool-cases (leb b.fail_threshold (b.failures + 1))) [
  | inl trips ↦
      let reached : leb b.fail_threshold (b.failures + length (t ∷ ts)) ≡ true = ground arith in
      let trip : (record_failure t b).state ≡ opened = ground (arith, e) in
      rw reached (open_stays ts (record_failure t b) trip)
  | inr more ↦
      let kept : record_failure t b ≡ record b { failures = b.failures + 1 } =
        rw (more, record_failure) refl in
      let later = fail_all-trips ts (record b { failures = b.failures + 1 }) e (ground arith) in
      ap (λ (x : CircuitBreaker). (fail_all ts x).state) kept ∙ later ∙ ground arith
]

-- Fail fast and probing: an open breaker refuses every call before its cool-down has passed and is
-- not changed by it, and from then on the first call is let through as a probe, half open.
pub allow-opened :
    (now : ℕ) (b : CircuitBreaker)
    → b.state ≡ opened
    → allow now b ≡ (
        if leb (b.opened_at + b.cooldown) now
        then (record b { state = half_open }, true)
        else (b, false))
unfolding allow
allow-opened now b e = ground (arith, e)

-- A probe that fails does not open the breaker again: once half open, a breaker that has no success
-- stays half open and lets every call through, whatever number of failures it records.
pub half_open_forever :
    (es : List Event) (now : ℕ) (b : CircuitBreaker)
    → b.state ≡ half_open
    → ((handle_all es b).state ≡ half_open) × ((allow now (handle_all es b)).1 ≡ true)
unfolding handle_all handle record_failure allow
half_open_forever [] now b e = (e, ground (arith, e))
half_open_forever (failed_at t ∷ es) now b e =
    half_open_forever es now (record_failure t b) (ground (arith, e))
half_open_forever (asked_at t ∷ es) now b e =
    half_open_forever es now (allow t b).0 (ground (arith, e))
