-- ===== src/Control/Isolation/Components.antt =====
-- What the components of the correlation engine see of its threads: the failover orchestrator and
-- the alert queue only ever make steps of their own.
use ganglion_oob.Prelude.{
  ℕ, String, Option, none, some, false, List, [], ◌∷◌, ◌≡◌, refl, sym, ◌∙◌, inl, inr, Bool-cases,
  str_eq, arith,
}
use mathlib.Core.Path.{subst}
use ganglion_oob.Prelude.Dict.{lookup}
use ganglion_oob.Alerts.Queue.{AlertManager, AnalystAction, work}
use ganglion_oob.Alerts.Queue as Alerts
use ganglion_oob.Failover.Types.{Orchestrator, Answers}
use ganglion_oob.Failover.Steps as Failover
use ganglion_oob.Failover.Compromise.{handle_compromise}
use ganglion_oob.Control.VmId.{safe_vm_id}
use ganglion_oob.Control.Scoring.{VmState}
use ganglion_oob.Control.Engine.{
  Engine, RawEvent, vm_of, process_event, process_events, process_batch, watchdog_sweep,
}
use ganglion_oob.Control.Isolation.{
  log_results, enforce_isolation, failover_isolated, abort_and_restore, restore_service,
}
use ganglion_oob.Control.Isolation.Steps.{
  Step, Reach, here, next, batch, sweeps, queried, pops_block, blocks, pops_isolation, begins, logs,
  enforces, fails_over, aborts, triages, orchestrates, respond-Same, sweep-Same, instant_block-Same,
  begin_isolation-Same, record_failover-Same,
}
use ganglion_oob.Control.Engine.{get_or}

moves : {o o' : Orchestrator} → o' ≡ o → Failover.Reach o o'
moves {o} {o'} same = subst (Failover.Reach o) (sym same) Failover.here

restore-Reach : (s : Option String) (o : Orchestrator) → Failover.Reach o (restore_service s o)
unfolding restore_service
restore-Reach none o = Failover.here
restore-Reach (some s) o = elim (Bool-cases (str_eq s "")) [
  | inl t ↦ rw t Failover.here
  | inr t ↦ rw t (Failover.next Failover.here (Failover.resets s))
]

failover_isolated-Reach :
    (vm_id : String) (a : Answers) (e : Engine)
    → Failover.Reach e.failover (failover_isolated vm_id a e).failover
unfolding failover_isolated
failover_isolated-Reach vm_id a e =
    let (o, reply) = handle_compromise vm_id a e.failover in
    let kept = record_failover-Same vm_id reply (record e { failover = o }) in
    subst (Failover.Reach e.failover) (sym kept.0)
      (Failover.next Failover.here (Failover.compromised vm_id a))

Failover_trans :
    {o p q : Orchestrator} → Failover.Reach o p → Failover.Reach p q → Failover.Reach o q
Failover_trans r Failover.here = r
Failover_trans r (Failover.next s t) = Failover.next (Failover_trans r s) t

Alerts_trans : {m n k : AlertManager} → Alerts.Reach m n → Alerts.Reach n k → Alerts.Reach m k
Alerts_trans r Alerts.here = r
Alerts_trans r (Alerts.next s t) = Alerts.next (Alerts_trans r s) t

raised : {m n : AlertManager} → n ≡ m → Alerts.Reach m n
raised {m} same = subst (Alerts.Reach m) (sym same) Alerts.here

module _ (digits : ℕ → String) where
  process_event-failover :
      (now : ℕ) (vm_id : String) (raw : RawEvent) (e : Engine) (vm : VmState)
      → (process_event digits now vm_id raw e vm).0.failover ≡ e.failover
  unfolding process_event
  process_event-failover now vm_id raw e vm = ground arith

  process_events-failover :
      (now : ℕ) (vm_id : String) (events : List RawEvent) (e : Engine) (vm : VmState)
      → (process_events digits now vm_id events e vm).0.failover ≡ e.failover
  unfolding process_events
  process_events-failover now vm_id [] e vm = refl
  process_events-failover now vm_id (raw ∷ rest) e vm =
      let (e', vm') = process_event digits now vm_id raw e vm in
      process_events-failover now vm_id rest e' vm' ∙ process_event-failover now vm_id raw e vm

  process_batch-failover :
      (now : ℕ) (raw_id : Option String) (events : List RawEvent) (e : Engine)
      → (process_batch digits now raw_id events e).failover ≡ e.failover
  unfolding process_batch
  process_batch-failover now raw_id events e =
      let vm_id = safe_vm_id raw_id in
      let seen = record (vm_of vm_id e) { last_seen = now; silent = false } in
      let (e', vm') = process_events digits now vm_id events e seen in
      (respond-Same now vm_id e' vm').0 ∙ process_events-failover now vm_id events e seen

  process_event-alerts :
      (now : ℕ) (vm_id : String) (raw : RawEvent) (e : Engine) (vm : VmState)
      → Alerts.Reach e.alerts (process_event digits now vm_id raw e vm).0.alerts
  unfolding process_event
  process_event-alerts now vm_id raw e vm =
      elim (Bool-cases (str_eq (get_or "unknown" raw.event_type) "heartbeat")) [
        | inl t ↦ rw t Alerts.here
        | inr t ↦ rw t (Alerts.next Alerts.here (Alerts.raises now _))
      ]

  process_events-alerts :
      (now : ℕ) (vm_id : String) (events : List RawEvent) (e : Engine) (vm : VmState)
      → Alerts.Reach e.alerts (process_events digits now vm_id events e vm).0.alerts
  unfolding process_events
  process_events-alerts now vm_id [] e vm = Alerts.here
  process_events-alerts now vm_id (raw ∷ rest) e vm =
      let (e', vm') = process_event digits now vm_id raw e vm in
      Alerts_trans (process_event-alerts now vm_id raw e vm)
        (process_events-alerts now vm_id rest e' vm')

  process_batch-alerts :
      (now : ℕ) (raw_id : Option String) (events : List RawEvent) (e : Engine)
      → Alerts.Reach e.alerts (process_batch digits now raw_id events e).alerts
  unfolding process_batch
  process_batch-alerts now raw_id events e =
      let vm_id = safe_vm_id raw_id in
      let seen = record (vm_of vm_id e) { last_seen = now; silent = false } in
      let (e', vm') = process_events digits now vm_id events e seen in
      subst (Alerts.Reach e.alerts) (sym (respond-Same now vm_id e' vm').1)
        (process_events-alerts now vm_id events e seen)

  Step-failover : {e f : Engine} → Step digits e f → Failover.Reach e.failover f.failover
  unfolding watchdog_sweep abort_and_restore log_results enforce_isolation
  Step-failover {e} (batch now raw_id events) = moves (process_batch-failover now raw_id events e)
  Step-failover {e} (sweeps now) = moves (sweep-Same now e.vms e).0
  Step-failover (queried now) = Failover.here
  Step-failover (pops_block vm_id rest h) = Failover.here
  Step-failover {e} (blocks vm_id ok c) = moves (instant_block-Same vm_id ok c e).0
  Step-failover (pops_isolation vm_id rest h) = Failover.here
  Step-failover {e} (begins vm_id) = moves (begin_isolation-Same vm_id e).0
  Step-failover (logs vm_id results) = Failover.here
  Step-failover (enforces vm_id results c) = Failover.here
  Step-failover {e} (fails_over vm_id a) = failover_isolated-Reach vm_id a e
  Step-failover {e} (aborts vm_id) =
      restore-Reach (lookup vm_id e.failover.vm_to_service) e.failover
  Step-failover (triages n w) = Failover.here
  Step-failover (orchestrates o s) = Failover.next Failover.here s

  Step-alerts : {e f : Engine} → Step digits e f → Alerts.Reach e.alerts f.alerts
  unfolding watchdog_sweep abort_and_restore log_results enforce_isolation failover_isolated
  Step-alerts {e} (batch now raw_id events) = process_batch-alerts now raw_id events e
  Step-alerts {e} (sweeps now) = raised (sweep-Same now e.vms e).1
  Step-alerts (queried now) = Alerts.here
  Step-alerts (pops_block vm_id rest h) = Alerts.here
  Step-alerts {e} (blocks vm_id ok c) = raised (instant_block-Same vm_id ok c e).1
  Step-alerts (pops_isolation vm_id rest h) = Alerts.here
  Step-alerts {e} (begins vm_id) = raised (begin_isolation-Same vm_id e).1
  Step-alerts (logs vm_id results) = Alerts.here
  Step-alerts (enforces vm_id results c) = Alerts.here
  Step-alerts {e} (fails_over vm_id a) =
      let (o, reply) = handle_compromise vm_id a e.failover in
      raised (record_failover-Same vm_id reply (record e { failover = o })).1
  Step-alerts (aborts vm_id) = Alerts.here
  Step-alerts (triages n w) = Alerts.next Alerts.here (Alerts.works n w)
  Step-alerts (orchestrates o s) = Alerts.here

  -- Whatever the threads of the correlation engine do, in any interleaving, its failover orchestrator
  -- goes through steps of its own, and its alert queue through calls of its own, so that what holds of
  -- every run of either component holds inside the engine.
  pub Reach-components :
      {e f : Engine}
      → Reach digits e f
      → Failover.Reach e.failover f.failover × Alerts.Reach e.alerts f.alerts
  Reach-components here = (Failover.here, Alerts.here)
  Reach-components (next r s) =
      let (o, m) = Reach-components r in
      (Failover_trans o (Step-failover s), Alerts_trans m (Step-alerts s))
