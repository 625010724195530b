-- ===== src/Decision/Policy.antt =====
-- decision_engine/decision_engine.py: `default_rules`, the shipped policy, and `DecisionEngine()`.
pub mod Sums
pub mod Verdicts
pub mod Continuity
use ganglion_oob.Prelude.{
  ℕ, String, Bool, true, false, not, ◌&&◌, ◌||◌, some, List, [], ◌∷◌, ◌++◌, leb, ◌==◌, str_eq,
}
use ganglion_oob.Prelude.Int.{ℤ, pos}
use ganglion_oob.Decision.{
  Verdict, monitor, alert, contain, failover, heal, escalate, Fact, sev_rank, Condition, Rule,
  Rationale, text, Engine,
}

-- `_c(name, fn)`; none of the shipped tests raises.
abbrev pub condition : String → (Fact → Bool) → Condition
condition name test = record { name = name; test = λ f. some (test f) }

-- `event_type in {"crypto_spike", "cred_dump", "ransomware_esxi"}`
unfoldable pub is_reflex_signal : Fact → Bool
is_reflex_signal f =
    str_eq f.event_type "crypto_spike"
    || str_eq f.event_type "cred_dump"
    || str_eq f.event_type "ransomware_esxi"

-- `asset_criticality in ("high", "crown_jewel")`
unfoldable pub is_crown_jewel : Fact → Bool
is_crown_jewel f = str_eq f.asset_criticality "high" || str_eq f.asset_criticality "crown_jewel"

unfoldable pub is_silent : Fact → Bool
is_silent f = str_eq f.event_type "agent_silence"

abbrev high : Condition
high = condition "sev>=high" (λ f. leb 3 (sev_rank f))

abbrev critical : Condition
critical = condition "sev==critical" (λ f. leb 4 (sev_rank f))

abbrev gate : String → List Condition → Verdict → String → Rule
gate id conditions verdict why = record {
  id = id;
  conditions = conditions;
  verdict = verdict;
  weight = pos 1000;
  rationale = text why;
  hard_gate = true;
}

abbrev weighted : String → List Condition → Verdict → ℕ → String → Rule
weighted id conditions verdict weight why = record {
  id = id;
  conditions = conditions;
  verdict = verdict;
  weight = pos weight;
  rationale = text why;
  hard_gate = false;
}

abbrev pub hard_gates : List Rule
hard_gates =
    gate "G1" (condition "reflex_signal" is_reflex_signal ∷ critical ∷ []) contain
      "unambiguous destructive signal → isolate now"
    ∷ gate "G2"
        (condition "irreversible_action" (λ f. not f.reversible)
          ∷ condition "not_certain" (λ f. not (leb 4 (sev_rank f)))
          ∷ [])
        escalate "action is irreversible and not certain → human decides"
    ∷ []

abbrev pub weighted_rules : List Rule
weighted_rules =
    weighted "R1" (critical ∷ []) contain 60 "critical severity favors containment"
    ∷ weighted "R2" (high ∷ []) alert 30 "high severity warrants an alert"
    ∷ weighted "R3" (condition "score>=100" (λ f. leb 100 f.score) ∷ []) contain 50
        "cumulative score crossed isolation threshold"
    ∷ weighted "R4"
        (condition "contain_and_standby" (λ f. leb 3 (sev_rank f) && f.has_standby) ∷ []) failover
        45 "high severity + a warm standby → keep workload alive"
    ∷ weighted "R5" (condition "crown_jewel" is_crown_jewel ∷ high ∷ []) failover 25
        "critical asset: prefer continuity over pure isolation"
    ∷ weighted "R6" (condition "low_sev" (λ f. leb (sev_rank f) 1) ∷ []) monitor 40
        "low severity: observe, don't act"
    ∷ weighted "R7" (condition "medium_sev" (λ f. sev_rank f == 2) ∷ []) alert 35
        "medium severity: alert the SOC"
    ∷ weighted "R8" (condition "repeat" (λ f. f.repeat_offender) ∷ high ∷ []) contain 20
        "repeat offender escalates confidence to contain"
    ∷ weighted "R9" (condition "post_contain" is_silent ∷ []) heal 30
        "sensor dark after an incident → heal/restore path"
    ∷ weighted "R10"
        (condition "off_hours_crit" (λ f. not f.business_hours && leb 3 (sev_rank f)) ∷ []) contain
        15 "off-hours high severity: lean toward automated containment"
    ∷ weighted "R0" (condition "any" (λ f. true) ∷ []) alert 5 "baseline: never silently ignore"
    ∷ []

abbrev pub default_rules : List Rule
default_rules = hard_gates ++ weighted_rules

-- `DecisionEngine()`
abbrev pub default_engine : Engine
default_engine = record { rules = default_rules; escalate_margin = pos 15 }
