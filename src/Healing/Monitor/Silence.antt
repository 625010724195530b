-- ===== src/Healing/Monitor/Silence.antt =====
-- What a sweep says of a component that was silent.
use native.Mathlib.Nat.{le-div_iff_mul-le}
use ganglion_oob.Prelude.{
  ℕ, ◌-◌, ◌*◌, ◌/◌, ◌≡◌, ◌∙◌, ◌<◌, refl, String, none, some, [], ◌∷◌, leb, if◌then◌else◌, arith,
}
use ganglion_oob.Prelude.Dict.{lookup}
use ganglion_oob.Healing.Monitor.{
  HealthState, degraded, unhealthy, dead, Vitals, ComponentHealth, HealthMonitor, aged_state,
  evaluate_vitals, age, sweep,
}

-- The state by the time since the last heartbeat, without counting misses.
abbrev pub silent_state : ℕ → ℕ → Vitals → HealthState
silent_state interval silence vitals =
    if leb (4 * interval) silence
    then dead
    else if leb (2 * interval) silence
    then unhealthy
    else if leb interval silence
    then degraded
    else evaluate_vitals vitals

missed :
    (k interval silence : ℕ)
    → 0 < interval
    → leb k (silence / interval) ≡ leb (k * interval) silence
missed k interval silence positive =
    ground (arith, le-div_iff_mul-le {k = interval} {x = k} {y = silence} positive)

aged-silent :
    (interval silence : ℕ) (v : Vitals)
    → 0 < interval
    → aged_state (silence / interval) v ≡ silent_state interval silence v
unfolding aged_state
aged-silent interval silence v positive = ground (
  arith,
  missed 4 interval silence positive,
  missed 2 interval silence positive,
  missed 1 interval silence positive,
)

lookup-sweep :
    (now : ℕ) (k : String) (hm : HealthMonitor)
    → lookup k (sweep now hm).0 ≡ elim (lookup k hm) [ none ↦ none | some c ↦ some (age now c) ]
unfolding sweep lookup
lookup-sweep now k [] = refl
lookup-sweep now k ((j, c) ∷ hm) = ground (arith, lookup-sweep now k hm)

-- Homeostasis: after a sweep every registered component is dead, unhealthy or degraded after silence
-- of four, two or one of its intervals, and in range of its vitals' set points before; its last
-- heartbeat and its vitals are kept.
pub sweep_by_silence :
    (now : ℕ) (k : String) (c : ComponentHealth) (hm : HealthMonitor)
    → lookup k hm ≡ some c
    → 0 < c.interval
    → (c' : ComponentHealth) × (lookup k (sweep now hm).0 ≡ some c')
      × (c'.state ≡ silent_state c.interval (now - c.last_beat) c.vitals)
      × (c'.last_beat ≡ c.last_beat)
      × (c'.vitals ≡ c.vitals)
sweep_by_silence now k c hm e positive = (
  age now c,
  lookup-sweep now k hm ∙ rw e refl,
  unfold age in aged-silent c.interval (now - c.last_beat) c.vitals positive,
  unfold age in refl,
  unfold age in refl,
)
