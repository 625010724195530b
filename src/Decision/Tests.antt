-- ===== src/Decision/Tests.antt =====
-- Decisions on concrete facts, and the theorems of the decision engine at such facts.
use ganglion_oob.Prelude.{◌≡◌, refl, ◌≢◌, ◌↔◌, ◌⊎◌, inl, inr, true, false, [], ◌∷◌, arith}
use ganglion_oob.Prelude.Int.{pos, ◌+ℤ◌, ◌-ℤ◌, ◌≤ℤ◌}
use ganglion_oob.Decision.{
  Verdict, monitor, alert, contain, failover, heal, escalate, Fact, Rule, Engine, text, decide,
  ranked, sev_rank, first_gate, fires, all_hold, holds, decide_weighted, accumulate, counts,
  add_score, conclude, is_thin,
}
use ganglion_oob.Decision.Gates.{NoGate}
use ganglion_oob.Decision.Scores.{weight_for}
use ganglion_oob.Decision.Margin.{automatic_verdict_leads}
use ganglion_oob.Decision.Lead.{LeadsClearly}
use ganglion_oob.Decision.Policy.{
  default_engine, default_rules, condition, is_reflex_signal, is_crown_jewel, is_silent,
}
use ganglion_oob.Decision.Policy.Sums.{default-NoGate}
use ganglion_oob.Decision.Policy.Verdicts.{monitor_iff_IsQuiet, never_heals, IsQuiet}

abbrev base : Fact
base = record {
  event_type = "";
  severity = "info";
  score = 0;
  techniques = [];
  asset_criticality = "normal";
  has_standby = false;
  reversible = true;
  business_hours = true;
  repeat_offender = false;
  extra = [];
}

-- Scenarios of the module's own demonstration.
abbrev ransomware : Fact
ransomware = record base {
  event_type = "crypto_spike";
  severity = "critical";
  score = 50;
  techniques = "T1486" ∷ [];
  has_standby = true;
}

abbrev high_with_standby : Fact
high_with_standby = record base {
  event_type = "network";
  severity = "high";
  score = 60;
  has_standby = true;
  asset_criticality = "crown_jewel";
}

abbrev medium_recon : Fact
medium_recon = record base { event_type = "lolbin"; severity = "medium"; score = 30 }

abbrev unsure : Fact
unsure = record base {
  event_type = "driver_load";
  severity = "medium";
  score = 40;
  reversible = false;
}

abbrev torn : Fact
torn = record high_with_standby { severity = "critical" }

abbrev lost_alone : Fact
lost_alone = record base { event_type = "network"; severity = "critical" }

decide_scenarios :
    ((decide default_engine ransomware).verdict ≡ contain)
    × ((decide default_engine high_with_standby).verdict ≡ failover)
    × ((decide default_engine medium_recon).verdict ≡ alert)
    × ((decide default_engine unsure).verdict ≡ escalate)
    × ((decide default_engine torn).verdict ≡ escalate)
    × ((decide default_engine base).verdict ≡ monitor)
unfolding decide first_gate fires all_hold holds sev_rank is_reflex_signal is_crown_jewel is_silent
    decide_weighted accumulate counts add_score conclude ranked is_thin ◌+ℤ◌ ◌-ℤ◌
decide_scenarios = (refl, refl, refl, refl, refl, refl)

-- A gate that does not fire, one that does, and a weighted rule that could not stop it.
abbrev gate_off : Rule
gate_off = record {
  id = "off";
  conditions = condition "no" (λ f. false) ∷ [];
  verdict = contain;
  weight = pos 9;
  rationale = text "never";
  hard_gate = true;
}

abbrev gate_on : Rule
gate_on = record gate_off {
  conditions = condition "has_standby" (λ f. f.has_standby) ∷ [];
  verdict = failover;
}

abbrev outvoted : Rule
outvoted = record gate_on { verdict = alert; weight = pos 99; hard_gate = false }

abbrev gated : Engine
gated = record { rules = gate_off ∷ gate_on ∷ outvoted ∷ []; escalate_margin = pos 15 }

medium_NoGate : NoGate medium_recon default_rules
unfolding sev_rank is_reflex_signal
medium_NoGate = default-NoGate medium_recon refl refl

medium_is_automatic : (decide default_engine medium_recon).escalated ≡ false
unfolding decide first_gate fires all_hold holds sev_rank is_reflex_signal is_crown_jewel is_silent
    decide_weighted accumulate counts add_score conclude ranked is_thin ◌+ℤ◌ ◌-ℤ◌
medium_is_automatic = refl

automatic_verdict_leads_example :
    let v = (decide default_engine medium_recon).verdict in
    (weight_for default_rules medium_recon monitor ≤ℤ weight_for default_rules medium_recon v)
    × ((monitor ≡ v)
        ⊎ (weight_for default_rules medium_recon monitor +ℤ pos 15
            ≤ℤ weight_for default_rules medium_recon v)
        ⊎ (weight_for default_rules medium_recon v ≤ℤ pos 0))
automatic_verdict_leads_example =
    automatic_verdict_leads default_engine medium_recon medium_NoGate medium_is_automatic monitor

torn-NoGate : NoGate torn default_rules
unfolding sev_rank is_reflex_signal
torn-NoGate = default-NoGate torn refl refl

-- Failover has 70, containment 60.
torn_best :
    (u : Verdict) → weight_for default_rules torn u ≤ℤ weight_for default_rules torn failover
unfolding weight_for counts fires all_hold holds sev_rank is_reflex_signal is_crown_jewel is_silent
    ◌+ℤ◌
torn_best monitor = omega arith
torn_best alert = omega arith
torn_best _ = omega arith

medium_lead : LeadsClearly (weight_for default_rules medium_recon) (pos 15) alert
unfolding weight_for counts fires all_hold holds sev_rank is_reflex_signal is_crown_jewel is_silent
    ◌+ℤ◌
medium_lead alert = inl refl
medium_lead monitor = inr (omega arith)
medium_lead _ = inr (omega arith)

monitor_iff_IsQuiet_example : ((decide default_engine base).verdict ≡ monitor) ↔ IsQuiet base
monitor_iff_IsQuiet_example = monitor_iff_IsQuiet base

never_heals_example : (decide default_engine base).verdict ≢ heal
never_heals_example = never_heals base
