-- ===== src/Control/Isolation/Steps.antt =====
-- The interleavings of the correlation engine's threads, and what its components see of them.
use ganglion_oob.Prelude.{
  ℕ, String, Option, Bool, List, [], ◌∷◌, ◌≡◌, refl, ◌∙◌, inl, inr, Bool-cases, arith,
}
use ganglion_oob.Prelude.Dict.{Dict, lookup}
use ganglion_oob.Decision.{Verdict, Fact}
use ganglion_oob.Alerts.Queue.{AnalystAction, work}
use ganglion_oob.Failover.Types.{Orchestrator, Answers, Reply, nothing, key_error, reported}
use ganglion_oob.Failover.Steps as Failover
use ganglion_oob.Decision.{decide}
use ganglion_oob.Decision.Policy.{default_engine}
use ganglion_oob.Control.Scoring.{IrEntry, VmState, recalculate_score}
use ganglion_oob.Control.Engine.{
  Engine, RawEvent, is_logged, vm_of, is_overdue, flag_silent, add_seen, fact_of, log_verdict,
  queue_isolation, respond, process_batch, sweep, watchdog_sweep, get_all_vm_states,
}
use ganglion_oob.Control.Isolation.{
  Containment, instant_block, begin_isolation, log_results, enforce_isolation, failover_isolated,
  record_failover, abort_and_restore,
}

-- One locked part of a thread. The parts of an isolation after its first one may come at any later
-- time; here they may come at any time.
pub data Step (digits : ℕ → String) (e : Engine) : Engine → Type 0 where
  batch :
      (now : ℕ) (raw_id : Option String) (events : List RawEvent)
      → Step digits e (process_batch digits now raw_id events e)
  sweeps : (now : ℕ) → Step digits e (watchdog_sweep now e)
  queried : (now : ℕ) → Step digits e (get_all_vm_states now e)
  pops_block :
      (vm_id : String) (rest : List String)
      → e.block_queue ≡ vm_id ∷ rest
      → Step digits e (record e { block_queue = rest })
  blocks :
      (vm_id : String) (ok : Bool) (c : Containment) → Step digits e (instant_block vm_id ok c e)
  pops_isolation :
      (vm_id : String) (rest : List String)
      → e.isolation_queue ≡ vm_id ∷ rest
      → Step digits e (record e { isolation_queue = rest })
  begins : (vm_id : String) → Step digits e (begin_isolation vm_id e).0
  logs : (vm_id : String) (results : List IrEntry) → Step digits e (log_results vm_id results e)
  enforces :
      (vm_id : String) (results : List IrEntry) (c : Containment)
      → Step digits e (enforce_isolation vm_id results c e)
  fails_over : (vm_id : String) (a : Answers) → Step digits e (failover_isolated vm_id a e)
  aborts : (vm_id : String) → Step digits e (abort_and_restore vm_id e)
  triages :
      (n : ℕ) (w : AnalystAction) → Step digits e (record e { alerts = (work n w e.alerts).0 })
  orchestrates :
      (o : Orchestrator) → Failover.Step e.failover o → Step digits e (record e { failover = o })

pub data Reach (digits : ℕ → String) (e : Engine) : Engine → Type 0 where
  here : Reach digits e e
  next : {f g : Engine} → Reach digits e f → Step digits f g → Reach digits e g

-- The failover orchestrator and the alerts are left alone.
abbrev pub Same : Engine → Engine → Type 0
Same e f = (f.failover ≡ e.failover) × (f.alerts ≡ e.alerts)

pub log_verdict-Same :
    (vm_id : String) (f : Fact) (v : Verdict) (e : Engine) → Same e (log_verdict vm_id f v e)
unfolding log_verdict
log_verdict-Same vm_id f v e =
    elim (Bool-cases (is_logged (lookup vm_id e.last_logged_verdict) v)) [
      | inl t ↦ rw (t, log_verdict) (refl, refl)
      | inr t ↦ rw (t, log_verdict) (refl, refl)
    ]

pub queue_isolation-Same :
    (vm_id : String) (vm : VmState) (e : Engine) → Same e (queue_isolation vm_id vm e)
unfolding queue_isolation
queue_isolation-Same vm_id vm e = ground arith

pub respond-Same :
    (now : ℕ) (vm_id : String) (e : Engine) (vm : VmState) → Same e (respond now vm_id e vm)
unfolding respond
respond-Same now vm_id e vm =
    let scored = recalculate_score now vm in
    let f = fact_of e.seen_techniques scored in
    let v = (decide default_engine f).verdict in
    let logged = log_verdict-Same vm_id f v e in
    let queued = queue_isolation-Same vm_id scored (log_verdict vm_id f v e) in
    (queued.0 ∙ logged.0, queued.1 ∙ logged.1)

pub sweep-Same : (now : ℕ) (vms : Dict VmState) (e : Engine) → Same e (sweep now vms e).1
unfolding sweep
sweep-Same now [] e = (refl, refl)
sweep-Same now ((k, vm) ∷ vms) e = elim (Bool-cases (is_overdue now vm)) [
  | inl t ↦
      let noted = record e { seen_techniques = add_seen "T1562.001" e.seen_techniques } in
      let flagged = flag_silent now vm in
      let queued = queue_isolation-Same vm.vm_id flagged noted in
      let rest = sweep-Same now vms (queue_isolation vm.vm_id flagged noted) in
      rw t (rest.0 ∙ queued.0, rest.1 ∙ queued.1)
  | inr t ↦ rw t (sweep-Same now vms e)
]

pub instant_block-Same :
    (vm_id : String) (ok : Bool) (c : Containment) (e : Engine)
    → Same e (instant_block vm_id ok c e)
unfolding instant_block
instant_block-Same vm_id ok c e = elim (Bool-cases (vm_of vm_id e).isolated) [
  | inl t ↦ rw t (refl, refl)
  | inr t ↦ rw t (refl, refl)
]

pub begin_isolation-Same : (vm_id : String) (e : Engine) → Same e (begin_isolation vm_id e).0
unfolding begin_isolation
begin_isolation-Same vm_id e = elim (Bool-cases (vm_of vm_id e).isolated) [
  | inl t ↦ rw t (refl, refl)
  | inr t ↦ rw t (refl, refl)
]

pub record_failover-Same :
    (vm_id : String) (r : Reply) (e : Engine) → Same e (record_failover vm_id r e)
unfolding record_failover
record_failover-Same vm_id nothing e = (refl, refl)
record_failover-Same vm_id key_error e = (refl, refl)
record_failover-Same vm_id (reported p) e = (refl, refl)
