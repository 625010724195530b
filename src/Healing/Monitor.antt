-- ===== src/Healing/Monitor.antt =====
-- self_healing/health_monitor.py. Vitals are given in thousandths, so that 95 percent is 95000 and an
-- error rate of one half is 500; the clock does not go back, and an interval is positive.
pub mod Silence
use ganglion_oob.Prelude.{
  ℕ, ◌+◌, ◌-◌, ◌/◌, ◌≤◌, ◌<◌, String, Option, none, some, Bool, true, false, not, ◌||◌, List, [],
  ◌∷◌, leb, if◌then◌else◌,
}
use ganglion_oob.Prelude.Dict.{Dict, lookup, insert}

pub data HealthState : Type 0 where
  healthy degraded unhealthy dead : HealthState

pub record Vitals : Type 0 where
  pub cpu_percent : Option ℕ
  pub mem_percent : Option ℕ
  pub queue_depth : Option ℕ
  pub error_rate : Option ℕ

abbrev pub no_vitals : Vitals
no_vitals = record { cpu_percent = none; mem_percent = none; queue_depth = none; error_rate = none }

pub record ComponentHealth : Type 0 where
  pub name : String
  pub interval : ℕ
  pub last_beat : ℕ
  pub misses : ℕ
  pub state : HealthState
  pub vitals : Vitals
  pub consecutive_ok : ℕ

-- The components by name.
abbrev pub HealthMonitor : Type 0
HealthMonitor = Dict ComponentHealth

unfoldable pub reaches : Option ℕ → ℕ → Bool
reaches none limit = false
reaches (some v) limit = leb limit v

-- `_evaluate_vitals`
unfoldable pub evaluate_vitals : Vitals → HealthState
evaluate_vitals v =
    if reaches v.cpu_percent 95000
      || reaches v.mem_percent 95000
      || reaches v.queue_depth 1000000
      || reaches v.error_rate 500
    then degraded
    else healthy

abbrev pub new_component : ℕ → ℕ → String → ComponentHealth
new_component now interval name = record {
  name = name;
  interval = interval;
  last_beat = now;
  misses = 0;
  state = healthy;
  vitals = no_vitals;
  consecutive_ok = 0;
}

unfoldable pub register : ℕ → String → ℕ → HealthMonitor → HealthMonitor
register now name interval hm = insert name (new_component now interval name) hm

abbrev pub beat : ℕ → Vitals → ComponentHealth → ComponentHealth
beat now vitals c = record c {
  last_beat = now;
  misses = 0;
  vitals = vitals;
  consecutive_ok = c.consecutive_ok + 1;
  state = evaluate_vitals vitals;
}

-- `heartbeat`; an unknown component is registered with the interval of five seconds.
unfoldable pub heartbeat : ℕ → ℕ → String → Vitals → HealthMonitor → HealthMonitor
heartbeat five_seconds now name vitals hm = elim (lookup name hm) [
  | some c ↦ insert name (beat now vitals c) hm
  | none ↦ insert name (beat now vitals (new_component now five_seconds name)) hm
]

abbrev pub same_state : HealthState → HealthState → Bool
same_state healthy healthy = true
same_state degraded degraded = true
same_state unhealthy unhealthy = true
same_state dead dead = true
same_state _ _ = false

-- The state after so many missed heartbeats: the thresholds are 4, 2 and 1.
unfoldable pub aged_state : ℕ → Vitals → HealthState
aged_state misses vitals =
    if leb 4 misses
    then dead
    else if leb 2 misses
    then unhealthy
    else if leb 1 misses
    then degraded
    else evaluate_vitals vitals

abbrev pub is_healthy : HealthState → Bool
is_healthy healthy = true
is_healthy _ = false

-- The body of the loop of `sweep` for one component.
unfoldable pub age : ℕ → ComponentHealth → ComponentHealth
age now c =
    let misses' = (now - c.last_beat) / c.interval in
    let state' = aged_state misses' c.vitals in
    record c {
      misses = misses';
      state = state';
      consecutive_ok =
          if same_state state' c.state || is_healthy state' then c.consecutive_ok else 0;
    }

unfoldable pub sweep : ℕ → HealthMonitor → HealthMonitor × List (String × HealthState)
sweep now [] = ([], [])
sweep now ((k, c) ∷ hm) =
    let (hm', changed) = sweep now hm in
    let c' = age now c in
    ((k, c') ∷ hm', if same_state c'.state c.state then changed else (c.name, c'.state) ∷ changed)
