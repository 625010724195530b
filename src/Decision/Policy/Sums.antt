-- ===== src/Decision/Policy/Sums.antt =====
-- The shipped policy's sums of weights in closed form, and when a hard gate fires.
use ganglion_oob.Prelude.{◌≡◌, ◌≤◌, ◌+◌, false, not, ◌&&◌, arith, leb, ◌==◌, if◌then◌else◌, Bool, ℕ}
use ganglion_oob.Prelude.Int.{pos, ◌+ℤ◌}
use ganglion_oob.Decision.{
  monitor, alert, contain, failover, heal, escalate, Fact, sev_rank, counts, fires, all_hold, holds,
}
use ganglion_oob.Decision.Gates.{NoGate}
use ganglion_oob.Decision.Scores.{weight_for}
use ganglion_oob.Decision.Policy.{is_reflex_signal, is_crown_jewel, is_silent, default_rules}

-- `n` if the test holds.
abbrev pub when : Bool → ℕ → ℕ
when b n = if b then n else 0

module _ (f : Fact) where
  pub sev_rank-le : sev_rank f ≤ 4
  unfolding sev_rank
  sev_rank-le = ground arith

  pub monitor_sum : weight_for default_rules f monitor ≡ pos (when (leb (sev_rank f) 1) 40)
  unfolding weight_for counts fires all_hold holds ◌+ℤ◌
  monitor_sum = ground arith

  pub alert_sum :
      weight_for default_rules f alert
      ≡ pos (when (leb 3 (sev_rank f)) 30 + when (sev_rank f == 2) 35 + 5)
  unfolding weight_for counts fires all_hold holds ◌+ℤ◌
  alert_sum = ground arith

  pub contain_sum :
      weight_for default_rules f contain
      ≡ pos (
          when (leb 4 (sev_rank f)) 60
          + when (leb 100 f.score) 50
          + when (f.repeat_offender && leb 3 (sev_rank f)) 20
          + when (not f.business_hours && leb 3 (sev_rank f)) 15)
  unfolding weight_for counts fires all_hold holds ◌+ℤ◌
  contain_sum = ground arith

  pub failover_sum :
      weight_for default_rules f failover
      ≡ pos (
          when (leb 3 (sev_rank f) && f.has_standby) 45
          + when (is_crown_jewel f && leb 3 (sev_rank f)) 25)
  unfolding weight_for counts fires all_hold holds ◌+ℤ◌
  failover_sum = ground arith

  pub heal_sum : weight_for default_rules f heal ≡ pos (when (is_silent f) 30)
  unfolding weight_for counts fires all_hold holds ◌+ℤ◌
  heal_sum = ground arith

  pub escalate_sum : weight_for default_rules f escalate ≡ pos 0
  unfolding weight_for counts fires all_hold holds ◌+ℤ◌
  escalate_sum = ground arith

  -- G1 holds.
  abbrev pub destructive : Bool
  destructive = is_reflex_signal f && leb 4 (sev_rank f)

  -- G2 holds.
  abbrev pub irreversible_uncertain : Bool
  irreversible_uncertain = not f.reversible && not (leb 4 (sev_rank f))

  pub default-NoGate : destructive ≡ false → irreversible_uncertain ≡ false → NoGate f default_rules
  unfolding fires all_hold holds
  default-NoGate g1 g2 = ground arith
