-- ===== src/Decision/Policy/Continuity.antt =====
-- When the shipped policy fails over.
use ganglion_oob.Prelude.{◌≡◌, ◌≢◌, false, inl, inr, arith}
use ganglion_oob.Decision.{failover, alert, Fact, decide}
use ganglion_oob.Decision.Policy.{is_crown_jewel, default_engine}
use ganglion_oob.Decision.Policy.Sums.{alert_sum, failover_sum}
use ganglion_oob.Decision.Policy.Verdicts.{
  how, lead_over, verdict_of_destructive, verdict_of_irreversible,
}

-- With no warm standby and an ordinary asset the shipped policy never fails over.
pub never_fails_over :
    (f : Fact)
    → f.has_standby ≡ false
    → is_crown_jewel f ≡ false
    → (decide default_engine f).verdict ≢ failover
never_fails_over f alone ordinary m = elim (how f) [
  | inl d ↦ cc (m, verdict_of_destructive f d)
  | inr (inl i) ↦ cc (m, verdict_of_irreversible f i)
  | inr (inr (inl e)) ↦ cc (m, e)
  | inr (inr (inr (g1, g2, auto))) ↦
      ground
        (arith, lead_over f g1 g2 auto failover m alert (λ e. cc) (alert_sum f) (failover_sum f))
]
