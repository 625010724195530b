-- ===== src/Healing/Breaker.antt =====
-- self_healing/healing_orchestrator.py: `CircuitBreaker`.
pub mod Trips
use ganglion_oob.Prelude.{
  ℕ, ◌+◌, String, Bool, true, false, ◌&&◌, List, [], ◌∷◌, leb, if◌then◌else◌,
}

pub data BreakerState : Type 0 where
  closed opened half_open : BreakerState

pub record CircuitBreaker : Type 0 where
  pub name : String
  pub fail_threshold : ℕ
  pub cooldown : ℕ
  pub failures : ℕ
  pub state : BreakerState
  pub opened_at : ℕ

-- `CircuitBreaker(name)`, with ten seconds in ticks as given.
abbrev pub new_breaker : ℕ → String → CircuitBreaker
new_breaker ten_seconds n = record {
  name = n;
  fail_threshold = 3;
  cooldown = ten_seconds;
  failures = 0;
  state = closed;
  opened_at = 0;
}

abbrev pub is_closed : BreakerState → Bool
is_closed closed = true
is_closed opened = false
is_closed half_open = false

abbrev pub is_open : BreakerState → Bool
is_open closed = false
is_open opened = true
is_open half_open = false

unfoldable pub record_failure : ℕ → CircuitBreaker → CircuitBreaker
record_failure now b =
    let failures' = b.failures + 1 in
    if leb b.fail_threshold failures' && is_closed b.state
    then record b { failures = failures'; state = opened; opened_at = now }
    else record b { failures = failures' }

unfoldable pub record_success : CircuitBreaker → CircuitBreaker
record_success b = record b { failures = 0; state = closed }

-- `allow`, which may move the breaker to half open.
unfoldable pub allow : ℕ → CircuitBreaker → CircuitBreaker × Bool
allow now b =
    let b' =
      if is_open b.state && leb (b.opened_at + b.cooldown) now
      then record b { state = half_open }
      else b in
    (b', if is_open b'.state then false else true)

-- Failures at these times, one after the other.
unfoldable pub fail_all : List ℕ → CircuitBreaker → CircuitBreaker
fail_all [] b = b
fail_all (t ∷ ts) b = fail_all ts (record_failure t b)

-- What may happen to a breaker that gets no success.
pub data Event : Type 0 where
  failed_at : ℕ → Event
  asked_at : ℕ → Event

unfoldable pub handle : Event → CircuitBreaker → CircuitBreaker
handle (failed_at t) b = record_failure t b
handle (asked_at t) b = (allow t b).0

unfoldable pub handle_all : List Event → CircuitBreaker → CircuitBreaker
handle_all [] b = b
handle_all (e ∷ es) b = handle_all es (handle e b)
