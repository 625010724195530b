-- ===== src/Control/Tests.antt =====
-- The correlation engine at small inputs, and the theorems at them.
use ganglion_oob.Prelude.{
  not, ℕ, min, String, none, some, true, false, ◌||◌, List, [], ◌∷◌, ◌≡◌, ◌≢◌, refl, arith, length,
  if◌then◌else◌,
}
use ganglion_oob.Prelude.Dict.{lookup, insert}
use ganglion_oob.Decision.{Decision, failover, heal}
use ganglion_oob.Alerts.Queue.{new_manager, raise_alert, is_repeat}
use ganglion_oob.Alerts.Queue as Alerts
use ganglion_oob.Failover.Steps as Failover
use ganglion_oob.Failover.Compromise.{handle_compromise}
use ganglion_oob.Mitre.{map_event_to_techniques, technique_ids, known, techniques}
use ganglion_oob.Prelude.Int.{pos}
use ganglion_oob.Containment.{Command, Run, exited, Backend, iptables}
use ganglion_oob.Control.Isolation.Rules.{as_containment, trigger_isolation-backend}
use ganglion_oob.Control.VmId.{safe_vm_id, clean, is_safe, IsSafeId, safe_vm_id-IsSafeId}
use ganglion_oob.Control.Scoring.{
  IrEntry, ScoredEvent, Status, VmState, new_vm, resolve_delta, push_event, purge_from,
  recalculate_score,
}
use ganglion_oob.Control.Engine.{
  Engine, RawEvent, vm_of, process_batch, process_events, process_event, respond, add_seen,
}
use ganglion_oob.Control.Isolation.{
  Containment, absent, begin_isolation, enforce_isolation, net_ok, host_ok, Response, net_ok,
  trigger_isolation, abort_and_restore,
}
use ganglion_oob.Control.Isolation.Steps.{Reach, here, next, batch, begins, enforces}
use ganglion_oob.Control.Isolation.Components.{Reach-components}
use ganglion_oob.Control.Isolation.Enforced.{WasEnforced, isolated-WasEnforced}
use ganglion_oob.Control.Isolation.Outcome.{stale_isolation}
use ganglion_oob.Control.Isolation.Batch.{process_batch-verdict}
use ganglion_oob.Control.Isolation.Window.{recent_sum, recalculate-recent}

abbrev pub blank_engine : Engine
blank_engine = record {
  vms = [];
  isolation_queue = [];
  block_queue = [];
  failover_count = 0;
  seen_techniques = [];
  alerts = new_manager 60000;
  geo_events = [];
  failover = Failover.start;
  last_logged_verdict = [];
  audit = [];
}

abbrev spike : RawEvent
spike = record {
  event_type = some "crypto_spike";
  severity = some "critical";
  reason = "";
  interval = none;
  agent_seq = none;
  dest_ip = none;
  timestamp = none;
}

abbrev pub digits : ℕ → String
digits n = "50"

abbrev pub spikes : List RawEvent
spikes = spike ∷ spike ∷ []

abbrev pub hit : Engine
hit = process_batch digits 1000000 (some "web-01") spikes blank_engine

-- Two cryptographic spikes reach the threshold, block the machine and queue its isolation.
two_spikes :
    (hit.isolation_queue ≡ "web-01" ∷ [])
    × (hit.block_queue ≡ "web-01" ∷ "web-01" ∷ [])
    × ((vm_of "web-01" hit).threat_score ≡ 100)
    × ((vm_of "web-01" hit).status ≡ Status.critical)
    × (length hit.alerts.alerts ≡ 1)
unfolding process_batch process_events process_event respond vm_of recalculate_score safe_vm_id
    clean is_safe resolve_delta push_event purge_from lookup insert raise_alert is_repeat
    map_event_to_techniques technique_ids known techniques add_seen
two_spikes = (refl, refl, refl, refl, refl)

safe_vm_id-IsSafeId_example :
    IsSafeId (safe_vm_id (some "web<01>"))
    × (safe_vm_id (some (safe_vm_id (some "web<01>"))) ≡ safe_vm_id (some "web<01>"))
safe_vm_id-IsSafeId_example = safe_vm_id-IsSafeId (some "web<01>")

markup_goes : safe_vm_id (some "web<01>") ≡ "web01"
unfolding safe_vm_id clean is_safe
markup_goes = refl

abbrev run : Reach digits blank_engine hit
run = next here (batch 1000000 (some "web-01") spikes)

hit_found : lookup "web-01" hit.vms ≡ some (vm_of "web-01" hit)
unfolding process_batch process_events process_event respond vm_of recalculate_score safe_vm_id
    clean is_safe resolve_delta push_event purge_from lookup insert
hit_found = refl

-- The hypervisor cuts the network of a machine that reached the threshold.
abbrev cut : List IrEntry
cut = record { operation = "isolate_network"; success = true } ∷ []

abbrev contained : Engine
contained = enforce_isolation "web-01" cut absent (begin_isolation "web-01" hit).0

abbrev contained_run : Reach digits blank_engine contained
contained_run = next (next run (begins "web-01")) (enforces "web-01" cut absent)

contained_shown :
    (lookup "web-01" contained.vms ≡ some (vm_of "web-01" contained))
    × ((vm_of "web-01" contained).status ≡ Status.isolated)
unfolding process_batch process_events process_event respond vm_of recalculate_score safe_vm_id
    clean is_safe resolve_delta push_event purge_from lookup insert begin_isolation
    enforce_isolation net_ok host_ok
contained_shown = (refl, refl)

isolated-WasEnforced_example : WasEnforced digits "web-01" blank_engine contained contained_run
isolated-WasEnforced_example =
    isolated-WasEnforced digits "web-01" (vm_of "web-01" contained) contained_run refl
      contained_shown.0 contained_shown.1

Reach-components_example :
    Failover.Reach blank_engine.failover hit.failover × Alerts.Reach blank_engine.alerts hit.alerts
Reach-components_example = Reach-components digits {e = blank_engine} {f = hit} run

-- The hypervisor's call fails, and the host's firewall is live.
abbrev pub response : Response
response = record {
  results = record { operation = "isolate_network"; success = false } ∷ [];
  containment = Containment.live true;
  answers = record { promoted = true; redirected = true; started = 0; finished = 1 };
}

stale_isolation_example :
    ((abort_and_restore "web-01" hit).isolation_queue ≡ hit.isolation_queue)
    × ((vm_of "web-01" (abort_and_restore "web-01" hit)).isolated ≡ false)
    × ((vm_of "web-01"
          (trigger_isolation "web-01" response (abort_and_restore "web-01" hit))).isolated
        ≡ true)
    × ((trigger_isolation "web-01" response (abort_and_restore "web-01" hit)).failover
        ≡ (handle_compromise "web-01" response.answers (abort_and_restore "web-01" hit).failover).0)
stale_isolation_example = stale_isolation "web-01" response hit

process_batch-verdict_example :
    (d : Decision) × ((vm_of (safe_vm_id (some "web-01")) hit).last_decision ≡ some d)
    × (d.verdict ≢ failover)
    × (d.verdict ≢ heal)
process_batch-verdict_example =
    process_batch-verdict digits 1000000 (some "web-01") spikes blank_engine

abbrev at_time : ℕ → ℕ → ScoredEvent
at_time t delta = record {
  timestamp = t;
  event_type = "network";
  severity = "low";
  score_delta = delta;
}

abbrev aging : VmState
aging = record (new_vm "web-01") { scored_events = at_time 1000 15 ∷ at_time 90000 40 ∷ [] }

-- After 100 seconds the first event is too old.
recalculate-recent_example :
    (recalculate_score 100000 aging).threat_score ≡ min (recent_sum 100000 aging.scored_events) 200
recalculate-recent_example = recalculate-recent 100000 aging (omega arith)

-- Every firewall command is refused.
abbrev denied : Command → Run
denied cmd = exited (pos 1) "Permission denied"

abbrev live_iptables : Backend
live_iptables = record { platform = iptables; dry_run = false; actions = []; contained = false }

not_isolated : (vm_of "web-01" hit).isolated ≡ false
unfolding process_batch process_events process_event respond vm_of recalculate_score safe_vm_id
    clean is_safe resolve_delta push_event purge_from lookup insert
not_isolated = refl

trigger_isolation-backend_example :
    (vm_of "web-01" (
      trigger_isolation "web-01"
        (record response { containment = as_containment denied (some live_iptables) })
        hit)).status
    ≡ (if net_ok response.results || not live_iptables.dry_run
        then Status.isolated
        else Status.quarantine_unenforced)
trigger_isolation-backend_example =
    trigger_isolation-backend denied live_iptables "web-01" response hit not_isolated
