-- ===== src/Alerts/Tests.antt =====
-- Two alerts and an analyst, and the theorems there.
use ganglion_oob.Prelude.{some, [], ◌∷◌}
use ganglion_oob.Alerts.Queue.{
  AlertManager, Report, new_manager, raise_alert, close, work, raises, works, Reach, here, next,
}
use ganglion_oob.Alerts.Dedupe.{IsSpaced, Reach-IsSpaced}

abbrev spike : Report
spike = record {
  vm_id = "vm-1";
  event_type = "crypto_spike";
  severity = "critical";
  delta = 50;
  attack = "T1486" ∷ [];
  reason = "";
  event_ts = some 90000;
  delta_text = "50";
}

-- The spike twice within the window of 30 seconds, then once more, and the first alert closed.
queue : AlertManager
queue =
    (work 1 (close "ann" "known")
      (raise_alert 131000 spike
        (raise_alert 101000 spike (raise_alert 100000 spike (new_manager 30000)).0).0).0).0

queue-reached : Reach (new_manager 30000) queue
unfolding queue
queue-reached =
    next (next (next (next here (raises 100000 spike)) (raises 101000 spike)) (raises 131000 spike))
      (works 1 (close "ann" "known"))

Reach-IsSpaced_example : IsSpaced 30000 queue.alerts
Reach-IsSpaced_example = Reach-IsSpaced 30000 queue-reached
