-- ===== src/Alerts/Metrics.antt =====
-- host_control_plane/alert_manager.py: the counts of `metrics`.
use ganglion_oob.Prelude.{ℕ, suc, ◌+◌, ◌≡◌, ◌≤◌, List, [], ◌∷◌, length, arith}
use ganglion_oob.Alerts.Queue.{AlertStatus, Alert, AlertManager}

-- `by_status`
pub record Counts : Type 0 where
  pub opened : ℕ
  pub acknowledged : ℕ
  pub escalated : ℕ
  pub closed : ℕ
  pub false_positive : ℕ

abbrev pub zero_counts : Counts
zero_counts = record { opened = 0; acknowledged = 0; escalated = 0; closed = 0; false_positive = 0 }

abbrev pub tally : AlertStatus → Counts → Counts
tally AlertStatus.opened c = record c { opened = c.opened + 1 }
tally AlertStatus.acknowledged c = record c { acknowledged = c.acknowledged + 1 }
tally AlertStatus.escalated c = record c { escalated = c.escalated + 1 }
tally AlertStatus.closed c = record c { closed = c.closed + 1 }
tally AlertStatus.false_positive c = record c { false_positive = c.false_positive + 1 }

unfoldable pub count : List Alert → Counts → Counts
count [] c = c
count (a ∷ xs) c = count xs (tally a.status c)

-- The numbers of `metrics`; the rate is the false positives out of those that were dispositioned.
pub record Metrics : Type 0 where
  pub total : ℕ
  pub by_status : Counts
  pub open_alerts : ℕ
  pub dispositioned : ℕ

unfoldable pub metrics : AlertManager → Metrics
metrics m =
    let c = count m.alerts zero_counts in
    record {
      total = length m.alerts;
      by_status = c;
      open_alerts = c.opened + c.acknowledged + c.escalated;
      dispositioned = c.closed + c.false_positive;
    }

abbrev sum_of : Counts → ℕ
sum_of c = c.opened + c.acknowledged + c.escalated + c.closed + c.false_positive

sum_of-tally : (s : AlertStatus) (c : Counts) → sum_of (tally s c) ≡ suc (sum_of c)
sum_of-tally AlertStatus.opened c = omega arith
sum_of-tally AlertStatus.acknowledged c = omega arith
sum_of-tally AlertStatus.escalated c = omega arith
sum_of-tally AlertStatus.closed c = omega arith
sum_of-tally AlertStatus.false_positive c = omega arith

sum_of-count : (xs : List Alert) (c : Counts) → sum_of (count xs c) ≡ sum_of c + length xs
unfolding count
sum_of-count [] c = omega arith
sum_of-count (a ∷ xs) c = omega (arith, sum_of-count xs (tally a.status c), sum_of-tally a.status c)

-- Metrics: every alert is counted once, as open or as dispositioned, and the false positives are
-- among those that were dispositioned, so that their rate is at most 100 percent.
pub metrics-total :
    (m : AlertManager)
    → ((metrics m).open_alerts + (metrics m).dispositioned ≡ (metrics m).total)
      × ((metrics m).by_status.false_positive ≤ (metrics m).dispositioned)
unfolding metrics
metrics-total m = (omega (arith, sum_of-count m.alerts zero_counts), omega arith)
