-- ===== src/Control/Isolation.antt =====
-- host_control_plane/control_center.py: the hard block, isolation with failover, its undoing by an
-- operator, and the queues that the worker thread drains. A method's locked parts are steps of their
-- own, between which other threads may run; what the hypervisor and the host's firewall answer is
-- given.
pub mod Steps
pub mod Components
pub mod Bounded
pub mod Honest
pub mod Flags
pub mod Enforced
pub mod Outcome
pub mod Rules
pub mod Batch
pub mod Window
use ganglion_oob.Prelude.{
  ℕ, ◌+◌, String, Option, none, some, Bool, true, false, not, ◌&&◌, ◌||◌, List, [], ◌∷◌, ◌++◌,
  str_eq, if◌then◌else◌,
}
use ganglion_oob.Prelude.Dict.{Dict, lookup, insert}
use ganglion_oob.Failover.Types.{
  Orchestrator, Answers, Reply, nothing, key_error, reported, ServicePair, ServiceState, healthy,
  failing_over, degraded, restored, no_standby,
}
use ganglion_oob.Failover.Compromise.{handle_compromise}
use ganglion_oob.Failover.Cure.{reset_service}
use ganglion_oob.Control.Scoring.{IrEntry, Status, VmState}
use ganglion_oob.Control.Engine.{Engine, vm_of, put_vm}

-- The host's containment backend: absent, in dry-run, or live with an `isolate_host` that succeeds
-- or raises.
pub data Containment : Type 0 where
  absent : Containment
  dry_run : Bool → Containment
  live : Bool → Containment

abbrev pub log_ir : List IrEntry → VmState → VmState
log_ir lines vm = record vm { ir_log = vm.ir_log ++ lines }

-- The line of a host containment that did not raise; its text also names the backend.
unfoldable pub containment_line : Containment → List IrEntry
containment_line absent = []
containment_line (dry_run ok) =
    if ok then record { operation = "host_containment (dry-run)"; success = true } ∷ [] else []
containment_line (live ok) =
    if ok then record { operation = "host_containment (applied)"; success = true } ∷ [] else []

-- `_instant_block`
unfoldable pub instant_block : String → Bool → Containment → Engine → Engine
unfolding vm_of containment_line
instant_block vm_id ok c e =
    let vm = vm_of vm_id e in
    if vm.isolated
    then put_vm vm_id vm e
    else put_vm vm_id
        (log_ir (record { operation = "block_network"; success = ok } ∷ containment_line c) vm) e

-- The first locked part of `_trigger_isolation`: the new state, and whether the method goes on.
unfoldable pub begin_isolation : String → Engine → Engine × Bool
unfolding vm_of
begin_isolation vm_id e =
    let vm = vm_of vm_id e in
    if vm.isolated
    then (put_vm vm_id vm e, false)
    else (put_vm vm_id (record vm { isolated = true }) e, true)

-- `any(r.success for r in results if r.operation in (...))`
unfoldable pub net_ok : List IrEntry → Bool
net_ok [] = false
net_ok (r ∷ rs) =
    (r.success && (str_eq r.operation "isolate_network" || str_eq r.operation "block_network"))
    || net_ok rs

-- Only a live backend that applied its rules counts.
unfoldable pub host_ok : Containment → Bool
host_ok absent = false
host_ok (dry_run _) = false
host_ok (live ok) = ok

-- The locked part that logs the hypervisor's results.
unfoldable pub log_results : String → List IrEntry → Engine → Engine
unfolding vm_of
log_results vm_id results e = put_vm vm_id (log_ir results (vm_of vm_id e)) e

-- The locked part that shows what is enforced, after the host's containment was tried.
unfoldable pub enforce_isolation : String → List IrEntry → Containment → Engine → Engine
unfolding vm_of net_ok host_ok
enforce_isolation vm_id results c e =
    let enforced = net_ok results || host_ok c in
    put_vm vm_id
      (record (vm_of vm_id e) {
        isolation_enforced = enforced;
        status = if enforced then Status.isolated else Status.quarantine_unenforced;
      })
      e

-- `fo["state"] in ("DEGRADED", "RESTORED", "HEALTHY")`
unfoldable pub is_serving : ServiceState → Bool
is_serving healthy = true
is_serving failing_over = false
is_serving degraded = true
is_serving restored = true
is_serving no_standby = false

-- The last part: a reported pair is counted and logged.
unfoldable pub record_failover : String → Reply → Engine → Engine
unfolding vm_of is_serving
record_failover vm_id nothing e = e
record_failover vm_id key_error e = e
record_failover vm_id (reported p) e =
    put_vm vm_id
      (log_ir (record { operation = "failover"; success = is_serving p.state } ∷ [])
        (vm_of vm_id e))
      (record e { failover_count = e.failover_count + 1 })

unfoldable pub failover_isolated : String → Answers → Engine → Engine
unfolding record_failover
failover_isolated vm_id a e =
    let (o, reply) = handle_compromise vm_id a e.failover in
    record_failover vm_id reply (record e { failover = o })

-- What the outside answers during one isolation.
pub record Response : Type 0 where
  pub results : List IrEntry
  pub containment : Containment
  pub answers : Answers

-- `_trigger_isolation` with no other thread in between
unfoldable pub trigger_isolation : String → Response → Engine → Engine
unfolding begin_isolation log_results enforce_isolation failover_isolated
trigger_isolation vm_id r e =
    let (e', go) = begin_isolation vm_id e in
    if go
    then failover_isolated vm_id r.answers
        (enforce_isolation vm_id r.results r.containment (log_results vm_id r.results e'))
    else e'

-- `drain_queues`, with what the outside answers for each machine.
unfoldable pub drain_blocks : (String → Bool × Containment) → List String → Engine → Engine
drain_blocks answer [] e = e
drain_blocks answer (vm_id ∷ rest) e =
    drain_blocks answer rest (instant_block vm_id (answer vm_id).0 (answer vm_id).1 e)

unfoldable pub drain_isolations : (String → Response) → List String → Engine → Engine
drain_isolations answer [] e = e
drain_isolations answer (vm_id ∷ rest) e =
    drain_isolations answer rest (trigger_isolation vm_id (answer vm_id) e)

unfoldable pub drain_queues : (String → Bool × Containment) → (String → Response) → Engine → Engine
unfolding drain_blocks drain_isolations
drain_queues block isolate e =
    let blocked = drain_blocks block e.block_queue (record e { block_queue = [] }) in
    drain_isolations isolate blocked.isolation_queue (record blocked { isolation_queue = [] })

-- `abort_and_restore`; an empty service name counts as none.
unfoldable pub restore_service : Option String → Orchestrator → Orchestrator
restore_service none o = o
restore_service (some service) o = if str_eq service "" then o else reset_service service o

unfoldable pub abort_and_restore : String → Engine → Engine
unfolding vm_of restore_service
abort_and_restore vm_id e =
    let vm = vm_of vm_id e in
    let cleared = record vm {
      scored_events = [];
      events = [];
      threat_score = 0;
      isolated = false;
      isolation_enforced = false;
      silent = false;
      status = Status.secure;
    } in
    put_vm vm_id (log_ir (record { operation = "abort_and_restore"; success = true } ∷ []) cleared)
      (record e { failover = restore_service (lookup vm_id e.failover.vm_to_service) e.failover })
