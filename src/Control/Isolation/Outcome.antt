-- ===== src/Control/Isolation/Outcome.antt =====
-- What one isolation does.
use ganglion_oob.Prelude.{
  String, some, Bool, true, false, ◌||◌, List, ◌≡◌, refl, ap, ◌∙◌, inl, inr, Bool-cases,
  if◌then◌else◌, eq_iff, arith,
}
use ganglion_oob.Prelude.Dict.{lookup, insert, lookup-insert}
use ganglion_oob.Failover.Types.{Answers, Reply, nothing, key_error, reported}
use ganglion_oob.Failover.Compromise.{handle_compromise}
use ganglion_oob.Control.Scoring.{IrEntry, Status, VmState}
use ganglion_oob.Control.Engine.{Engine, vm_of, put_vm}
use ganglion_oob.Control.Isolation.{
  log_ir, Containment, Response, begin_isolation, log_results, enforce_isolation, net_ok, host_ok,
  record_failover, failover_isolated, trigger_isolation, abort_and_restore,
}

pub vm_of-put_vm :
    (vm_id : String) (vm : VmState) (e : Engine) → vm_of vm_id (put_vm vm_id vm e) ≡ vm
unfolding vm_of
vm_of-put_vm vm_id vm e =
    let found : lookup vm_id (insert vm_id vm e.vms) ≡ some vm =
      ground (arith, lookup-insert vm_id vm_id vm e.vms, eq_iff vm_id vm_id) in
    rw (found, vm_of) refl

-- What is shown of an isolation.
abbrev pub flags : VmState → Bool × Bool × Status
flags vm = (vm.isolated, vm.isolation_enforced, vm.status)

-- The last part of an isolation only adds to the log of the machine.
record_failover-flags :
    (vm_id : String) (reply : Reply) (f : Engine)
    → flags (vm_of vm_id (record_failover vm_id reply f)) ≡ flags (vm_of vm_id f)
unfolding record_failover
record_failover-flags vm_id nothing f = refl
record_failover-flags vm_id key_error f = refl
record_failover-flags vm_id (reported p) f = rw (vm_of-put_vm vm_id _ f) refl

record_failover-orchestrator :
    (vm_id : String) (reply : Reply) (f : Engine)
    → (record_failover vm_id reply f).failover ≡ f.failover
unfolding record_failover
record_failover-orchestrator vm_id nothing f = refl
record_failover-orchestrator vm_id key_error f = refl
record_failover-orchestrator vm_id (reported p) f = refl

enforce_isolation-flags :
    (vm_id : String) (results : List IrEntry) (c : Containment) (f : Engine)
    → flags (vm_of vm_id (enforce_isolation vm_id results c f)) ≡ (
      (vm_of vm_id f).isolated,
      net_ok results || host_ok c,
      if net_ok results || host_ok c then Status.isolated else Status.quarantine_unenforced,
    )
unfolding enforce_isolation
enforce_isolation-flags vm_id results c f = rw (vm_of-put_vm vm_id _ f) refl

failover_isolated-flags :
    (vm_id : String) (a : Answers) (f : Engine)
    → (flags (vm_of vm_id (failover_isolated vm_id a f)) ≡ flags (vm_of vm_id f))
      × ((failover_isolated vm_id a f).failover ≡ (handle_compromise vm_id a f.failover).0)
unfolding failover_isolated
failover_isolated-flags vm_id a f =
    let (o, reply) = handle_compromise vm_id a f.failover in
    let g = record f { failover = o } in
    (record_failover-flags vm_id reply g, record_failover-orchestrator vm_id reply g)

if_true : {A : Type 0} (b : Bool) (x y : A) → b ≡ true → x ≡ (if b then x else y)
if_true b x y e = rw e refl

pub if_false : {A : Type 0} (b : Bool) (x y : A) → b ≡ false → y ≡ (if b then x else y)
if_false b x y e = rw e refl

module _ (vm_id : String) (r : Response) (e : Engine) where
  abbrev pub enforced : Bool
  enforced = net_ok r.results || host_ok r.containment

  abbrev pub after : Engine
  after = trigger_isolation vm_id r e

  begun : Engine
  unfolding log_results
  begun = log_results vm_id r.results (put_vm vm_id (record (vm_of vm_id e) { isolated = true }) e)

  trigger_isolation-begun :
      (vm_of vm_id e).isolated ≡ false
      → after
        ≡ failover_isolated vm_id r.answers (enforce_isolation vm_id r.results r.containment begun)
  unfolding trigger_isolation begin_isolation begun log_results
  trigger_isolation-begun fresh = rw fresh refl

  begun-isolated : (vm_of vm_id begun).isolated ≡ true
  unfolding begun log_results
  begun-isolated =
      let marked = record (vm_of vm_id e) { isolated = true } in
      let put = put_vm vm_id marked e in
      ap (λ (m : VmState). m.isolated) (vm_of-put_vm vm_id (log_ir r.results (vm_of vm_id put)) put)
      ∙ ap (λ (m : VmState). m.isolated) (vm_of-put_vm vm_id marked e)

  pub trigger_isolation-flags :
      (vm_of vm_id e).isolated ≡ false
      → (flags (vm_of vm_id after)
          ≡ (true, enforced, if enforced then Status.isolated else Status.quarantine_unenforced))
        × (after.failover ≡ (handle_compromise vm_id r.answers e.failover).0)
  unfolding begun log_results enforce_isolation
  trigger_isolation-flags fresh =
      let f = enforce_isolation vm_id r.results r.containment begun in
      let (same, moved) = failover_isolated-flags vm_id r.answers f in
      let shown = enforce_isolation-flags vm_id r.results r.containment begun in
      let marked : (vm_of vm_id begun).isolated ≡ true = begun-isolated in
      rw (trigger_isolation-begun fresh) ((same ∙ shown) ∙ rw marked refl, moved)

  trigger_isolation-again :
      (vm_of vm_id e).isolated ≡ true
      → (flags (vm_of vm_id after) ≡ flags (vm_of vm_id e)) × (after.failover ≡ e.failover)
  unfolding trigger_isolation begin_isolation
  trigger_isolation-again was =
      let kept : after ≡ put_vm vm_id (vm_of vm_id e) e = rw was refl in
      (
        ap (λ f. flags (vm_of vm_id f)) kept ∙ ap flags (vm_of-put_vm vm_id _ e),
        ap (λ f. f.failover) kept,
      )

  -- Isolation, on both branches: a machine that is isolated keeps its flags and its service is not
  -- touched; another is marked isolated, counts as enforced exactly if the hypervisor cut its network
  -- or a live containment backend applied its rules, is shown as ISOLATED if so and as
  -- QUARANTINE_UNENFORCED if not, and its compromise is handed to the failover orchestrator.
  pub trigger_isolation_lem :
      (flags (vm_of vm_id after) ≡ (
        if (vm_of vm_id e).isolated
        then flags (vm_of vm_id e)
        else (true, enforced, if enforced then Status.isolated else Status.quarantine_unenforced)))
      × (after.failover ≡ (
          if (vm_of vm_id e).isolated
          then e.failover
          else (handle_compromise vm_id r.answers e.failover).0))
  unfolding trigger_isolation begin_isolation
  trigger_isolation_lem = elim (Bool-cases (vm_of vm_id e).isolated) [
    | inl was ↦
        let (same, still) = trigger_isolation-again was in
        (same ∙ if_true _ _ _ was, still ∙ if_true _ _ _ was)
    | inr fresh ↦
        let (shown, moved) = trigger_isolation-flags fresh in
        (shown ∙ if_false _ _ _ fresh, moved ∙ if_false _ _ _ fresh)
  ]

abort_and_restore-flags :
    (vm_id : String) (e : Engine)
    → flags (vm_of vm_id (abort_and_restore vm_id e)) ≡ (false, false, Status.secure)
unfolding abort_and_restore
abort_and_restore-flags vm_id e = rw (vm_of-put_vm vm_id _ e) refl

-- An operator's abort does not cancel an isolation that is queued: the queue stays as it is, and
-- when the worker comes to the machine, it isolates it and fails its service over, whatever happened
-- before.
pub stale_isolation :
    (vm_id : String) (r : Response) (e : Engine)
    → let aborted = abort_and_restore vm_id e in
      (aborted.isolation_queue ≡ e.isolation_queue)
      × ((vm_of vm_id aborted).isolated ≡ false)
      × ((vm_of vm_id (trigger_isolation vm_id r aborted)).isolated ≡ true)
      × ((trigger_isolation vm_id r aborted).failover
          ≡ (handle_compromise vm_id r.answers aborted.failover).0)
unfolding abort_and_restore
stale_isolation vm_id r e =
    let aborted = abort_and_restore vm_id e in
    let free = ap (λ (x : Bool × Bool × Status). x.0) (abort_and_restore-flags vm_id e) in
    let (shown, moved) = trigger_isolation-flags vm_id r aborted free in
    (refl, free, ap (λ (x : Bool × Bool × Status). x.0) shown, moved)

-- An abort between the decision to isolate and its enforcement is overrun: the machine is then shown
-- by what is enforced, as ISOLATED or QUARANTINE_UNENFORCED, while it does not count as isolated.
pub late_enforcement :
    (vm_id : String) (results : List IrEntry) (c : Containment) (e : Engine)
    → let ok = net_ok results || host_ok c in
      flags (vm_of vm_id (enforce_isolation vm_id results c (abort_and_restore vm_id e)))
      ≡ (false, ok, if ok then Status.isolated else Status.quarantine_unenforced)
late_enforcement vm_id results c e =
    let aborted = abort_and_restore vm_id e in
    let free = ap (λ (x : Bool × Bool × Status). x.0) (abort_and_restore-flags vm_id e) in
    enforce_isolation-flags vm_id results c aborted ∙ rw free refl
