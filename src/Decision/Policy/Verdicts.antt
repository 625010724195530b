-- ===== src/Decision/Policy/Verdicts.antt =====
-- What the shipped policy decides.
use ganglion_oob.Prelude.{
  ℕ, ◌+◌, ◌∙◌, ◌≡◌, refl, ◌<◌, ◌≤◌, true, false, ◌⊎◌, ◌≢◌, inl, inr, arith, Bool-cases, ◌↔◌,
}
use ganglion_oob.Prelude.Int.{pos, ◌+ℤ◌, ◌≤ℤ◌, +ℤ_parts}
use ganglion_oob.Decision.{
  Verdict, monitor, alert, contain, failover, heal, escalate, isolate_host, notify_analyst, Fact,
  sev_rank, fires, all_hold, holds, verdict_action, decide, first_gate,
}
use ganglion_oob.Decision.Margin.{automatic_verdict_leads, escalated-verdict}
use ganglion_oob.Decision.Lead.{LeadsClearly, clear_lead_decides}
use ganglion_oob.Decision.Policy.{is_reflex_signal, is_silent, default_rules, default_engine}
use ganglion_oob.Decision.Policy.Sums.{
  monitor_sum, alert_sum, contain_sum, failover_sum, heal_sum, escalate_sum, destructive,
  irreversible_uncertain, default-NoGate, sev_rank-le,
}
use ganglion_oob.Decision.Scores.{weight_for}

-- A critical signal of mass encryption, credential dumping or ESXi encryption isolates the host,
-- without escalation, whatever else is known, an irreversible action included.
pub destructive_contains :
    (f : Fact)
    → is_reflex_signal f ≡ true
    → sev_rank f ≡ 4
    → ((decide default_engine f).verdict ≡ contain)
      × ((decide default_engine f).action ≡ isolate_host)
      × ((decide default_engine f).escalated ≡ false)
unfolding decide first_gate fires all_hold holds verdict_action
destructive_contains f signal sev = ground arith

-- An irreversible action at less than critical severity is left to a human.
pub irreversible_escalates :
    (f : Fact)
    → f.reversible ≡ false
    → sev_rank f < 4
    → ((decide default_engine f).verdict ≡ escalate)
      × ((decide default_engine f).action ≡ notify_analyst)
      × ((decide default_engine f).escalated ≡ true)
unfolding decide first_gate fires all_hold holds verdict_action
irreversible_escalates f irreversible sev = ground arith

-- Nothing asks for a response: low severity, a reversible action, a score below the isolation
-- threshold, and a sensor that is not silent.
abbrev pub IsQuiet : Fact → Type 0
IsQuiet f = (sev_rank f ≤ 1) × (f.reversible ≡ true) × (f.score < 100) × (is_silent f ≡ false)

lead_pos : (a b : ℕ) → a + 15 ≤ b → pos a +ℤ pos 15 ≤ℤ pos b
lead_pos a b h = omega (arith, +ℤ_parts (pos a) (pos 15))

quiet_lead : (f : Fact) → IsQuiet f → LeadsClearly (weight_for default_rules f) (pos 15) monitor
quiet_lead f q monitor = inl refl
quiet_lead f q alert = inr (rw (alert_sum f, monitor_sum f) (lead_pos _ _ (ground arith)))
quiet_lead f q contain = inr (rw (contain_sum f, monitor_sum f) (lead_pos _ _ (ground arith)))
quiet_lead f q failover = inr (rw (failover_sum f, monitor_sum f) (lead_pos _ _ (ground arith)))
quiet_lead f q heal = inr (rw (heal_sum f, monitor_sum f) (lead_pos _ _ (ground arith)))
quiet_lead f q escalate = inr (rw (escalate_sum f, monitor_sum f) (lead_pos _ _ (ground arith)))

module _ (f : Fact) (g1 : destructive f ≡ false) (g2 : irreversible_uncertain f ≡ false)
    (auto : (decide default_engine f).escalated ≡ false) (v : Verdict)
    (chosen : (decide default_engine f).verdict ≡ v) where
  lead_over_other :
      (w : Verdict)
      → w ≢ v
      → (weight_for default_rules f w ≤ℤ weight_for default_rules f v)
        × ((weight_for default_rules f w +ℤ pos 15 ≤ℤ weight_for default_rules f v)
            ⊎ (weight_for default_rules f v ≤ℤ pos 0))
  lead_over_other w ne =
      let facts = automatic_verdict_leads default_engine f (default-NoGate f g1 g2) auto w in
      rw (← chosen)
        (facts.0, elim facts.1 [ inl same ↦ absurd (ne (same ∙ chosen)) | inr rest ↦ rest ])

  -- The chosen verdict's sum against another's, as numbers.
  pub lead_over :
      (w : Verdict) {a b : ℕ}
      → w ≢ v
      → weight_for default_rules f w ≡ pos a
      → weight_for default_rules f v ≡ pos b
      → (a ≤ b) × ((a + 15 ≤ b) ⊎ (b ≤ 0))
  lead_over w {a} {b} ne ea eb =
      omega (arith, +ℤ_parts (pos a) (pos 15), rw (ea, eb) at (lead_over_other w ne))

-- How a decision of the shipped policy comes about.
pub how :
    (f : Fact)
    → (destructive f ≡ true)
      ⊎ (irreversible_uncertain f ≡ true)
      ⊎ ((decide default_engine f).verdict ≡ escalate)
      ⊎ ((destructive f ≡ false)
          × (irreversible_uncertain f ≡ false)
          × ((decide default_engine f).escalated ≡ false))
how f = elim (Bool-cases (destructive f)) [
  | inl g1 ↦ inl g1
  | inr g1 ↦ elim (Bool-cases (irreversible_uncertain f)) [
    | inl g2 ↦ inr (inl g2)
    | inr g2 ↦ elim (Bool-cases (decide default_engine f).escalated) [
      | inl e ↦ inr (inr (inl (escalated-verdict default_engine f (default-NoGate f g1 g2) e)))
      | inr e ↦ inr (inr (inr (g1, g2, e)))
    ]
  ]
]

quiet_monitors : (f : Fact) → IsQuiet f → (decide default_engine f).verdict ≡ monitor
quiet_monitors f q =
    (clear_lead_decides default_engine f monitor (default-NoGate f (ground arith) (ground arith))
      (omega arith) (quiet_lead f q)).0

pub verdict_of_destructive :
    (f : Fact) → destructive f ≡ true → (decide default_engine f).verdict ≡ contain
verdict_of_destructive f h =
    (destructive_contains f (ground arith) (ground (arith, sev_rank-le f))).0

pub verdict_of_irreversible :
    (f : Fact) → irreversible_uncertain f ≡ true → (decide default_engine f).verdict ≡ escalate
verdict_of_irreversible f h = (irreversible_escalates f (ground arith) (ground arith)).0

monitored-IsQuiet : (f : Fact) → (decide default_engine f).verdict ≡ monitor → IsQuiet f
monitored-IsQuiet f m = elim (how f) [
  | inl d ↦ absurd (cc (m, verdict_of_destructive f d))
  | inr (inl i) ↦ absurd (cc (m, verdict_of_irreversible f i))
  | inr (inr (inl e)) ↦ absurd (cc (m, e))
  | inr (inr (inr (g1, g2, auto))) ↦ ground (
    arith,
    lead_over f g1 g2 auto monitor m alert (λ e. cc) (alert_sum f) (monitor_sum f),
    lead_over f g1 g2 auto monitor m contain (λ e. cc) (contain_sum f) (monitor_sum f),
    lead_over f g1 g2 auto monitor m heal (λ e. cc) (heal_sum f) (monitor_sum f),
  )
]

-- The shipped policy only keeps observing in exactly the quiet situations: the severity is low, the
-- action is reversible, the score is below 100, and the event is not a silent sensor.
pub monitor_iff_IsQuiet : (f : Fact) → ((decide default_engine f).verdict ≡ monitor) ↔ IsQuiet f
monitor_iff_IsQuiet f = (monitored-IsQuiet f, quiet_monitors f)

-- The shipped policy never decides to heal, although its rule R9 argues for it: the verdict is
-- another one for every fact.
pub never_heals : (f : Fact) → (decide default_engine f).verdict ≢ heal
never_heals f m = elim (how f) [
  | inl d ↦ cc (m, verdict_of_destructive f d)
  | inr (inl i) ↦ cc (m, verdict_of_irreversible f i)
  | inr (inr (inl e)) ↦ cc (m, e)
  | inr (inr (inr (g1, g2, auto))) ↦ ground (
    arith,
    lead_over f g1 g2 auto heal m alert (λ e. cc) (alert_sum f) (heal_sum f),
    lead_over f g1 g2 auto heal m monitor (λ e. cc) (monitor_sum f) (heal_sum f),
  )
]

abbrev IsCriticalAlone : Fact → Type 0
IsCriticalAlone f = (sev_rank f ≡ 4) × (f.has_standby ≡ false)

contain_lead :
    (f : Fact) → IsCriticalAlone f → LeadsClearly (weight_for default_rules f) (pos 15) contain
contain_lead f q contain = inl refl
contain_lead f q monitor = inr (rw (monitor_sum f, contain_sum f) (lead_pos _ _ (ground arith)))
contain_lead f q alert = inr (rw (alert_sum f, contain_sum f) (lead_pos _ _ (ground arith)))
contain_lead f q failover = inr (rw (failover_sum f, contain_sum f) (lead_pos _ _ (ground arith)))
contain_lead f q heal = inr (rw (heal_sum f, contain_sum f) (lead_pos _ _ (ground arith)))
contain_lead f q escalate = inr (rw (escalate_sum f, contain_sum f) (lead_pos _ _ (ground arith)))

-- At critical severity and with no warm standby the shipped policy isolates the host, without
-- escalation, whatever the event, the score, the asset and the hour.
pub critical_alone_contains :
    (f : Fact)
    → sev_rank f ≡ 4
    → f.has_standby ≡ false
    → ((decide default_engine f).verdict ≡ contain)
      × ((decide default_engine f).action ≡ isolate_host)
      × ((decide default_engine f).escalated ≡ false)
unfolding verdict_action
critical_alone_contains f critical alone = elim (Bool-cases (is_reflex_signal f)) [
  | inl signal ↦ destructive_contains f signal critical
  | inr signal ↦
      clear_lead_decides default_engine f contain (default-NoGate f (ground arith) (ground arith))
        (omega arith) (contain_lead f (critical, alone))
]
