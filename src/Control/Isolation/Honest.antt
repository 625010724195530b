-- ===== src/Control/Isolation/Honest.antt =====
-- An invariant of the machines under every interleaving: the score and the deques are bounded, and a
-- machine is shown as ISOLATED only together with its flag of an enforced isolation.
use mathlib.Core.Path.{subst}
use ganglion_oob.Prelude.{
  ℕ, String, some, Bool, List, [], ◌≡◌, refl, sym, ◌∙◌, inl, inr, Bool-cases, arith, All,
}
use ganglion_oob.Prelude.Dict.{lookup, All-lookup}
use ganglion_oob.Failover.Types.{Reply, nothing, key_error, reported}
use ganglion_oob.Failover.Compromise.{handle_compromise}
use ganglion_oob.Control.Scoring.{IrEntry, VmState}
use ganglion_oob.Control.Engine.{Engine, vm_of, watchdog_sweep}
use ganglion_oob.Control.Isolation.{
  Containment, instant_block, begin_isolation, log_results, enforce_isolation, failover_isolated,
  record_failover, abort_and_restore,
}
use ganglion_oob.Control.Isolation.Steps.{
  Step, Reach, here, next, batch, sweeps, queried, pops_block, blocks, pops_isolation, begins, logs,
  enforces, fails_over, aborts, triages, orchestrates,
}
use ganglion_oob.Control.Isolation.Bounded.{
  IsHonest, AllHonest, vm_of-IsHonest, put_vm-AllHonest, process_batch-AllHonest, sweep-AllHonest,
  refresh_all-AllHonest,
}

-- What does not touch the score, the status and the deques.
relabelled :
    (vm vm' : VmState)
    → vm'.threat_score ≡ vm.threat_score
    → vm'.status ≡ vm.status
    → vm'.isolation_enforced ≡ vm.isolation_enforced
    → vm'.events ≡ vm.events
    → vm'.scored_events ≡ vm.scored_events
    → IsHonest vm
    → IsHonest vm'
relabelled vm vm' a b c d f h = record {
  capped = rw a h.capped;
  contained = λ e. c ∙ h.contained (sym b ∙ e);
  kept = rw d h.kept;
  window = rw f h.window;
}

module _ (vm_id : String) (e : Engine) (h : AllHonest e) where
  instant_block-AllHonest : (ok : Bool) (c : Containment) → AllHonest (instant_block vm_id ok c e)
  unfolding instant_block
  instant_block-AllHonest ok c =
      let v = vm_of-IsHonest vm_id e h in
      elim (Bool-cases (vm_of vm_id e).isolated) [
        | inl t ↦ rw t (put_vm-AllHonest vm_id (vm_of vm_id e) e v h)
        | inr t ↦
            rw t (
              put_vm-AllHonest vm_id _ e (relabelled (vm_of vm_id e) _ refl refl refl refl refl v)
                h)
      ]

  begin_isolation-AllHonest : AllHonest (begin_isolation vm_id e).0
  unfolding begin_isolation
  begin_isolation-AllHonest =
      let v = vm_of-IsHonest vm_id e h in
      elim (Bool-cases (vm_of vm_id e).isolated) [
        | inl t ↦ rw t (put_vm-AllHonest vm_id (vm_of vm_id e) e v h)
        | inr t ↦
            rw t (
              put_vm-AllHonest vm_id _ e (relabelled (vm_of vm_id e) _ refl refl refl refl refl v)
                h)
      ]

  log_results-AllHonest : (results : List IrEntry) → AllHonest (log_results vm_id results e)
  unfolding log_results
  log_results-AllHonest results =
      let v = vm_of-IsHonest vm_id e h in
      put_vm-AllHonest vm_id _ e (relabelled (vm_of vm_id e) _ refl refl refl refl refl v) h

  enforce_isolation-AllHonest :
      (results : List IrEntry) (c : Containment) → AllHonest (enforce_isolation vm_id results c e)
  unfolding enforce_isolation
  enforce_isolation-AllHonest results c =
      let v = vm_of-IsHonest vm_id e h in
      put_vm-AllHonest vm_id _ e
        (record {
          capped = v.capped;
          contained = λ shown. ground arith;
          kept = v.kept;
          window = v.window;
        })
        h

  record_failover-AllHonest : (r : Reply) → AllHonest (record_failover vm_id r e)
  unfolding record_failover
  record_failover-AllHonest nothing = h
  record_failover-AllHonest key_error = h
  record_failover-AllHonest (reported p) =
      let v = vm_of-IsHonest vm_id e h in
      put_vm-AllHonest vm_id _ e (relabelled (vm_of vm_id e) _ refl refl refl refl refl v) h

  abort_and_restore-AllHonest : AllHonest (abort_and_restore vm_id e)
  unfolding abort_and_restore
  abort_and_restore-AllHonest =
      put_vm-AllHonest vm_id _ e
        (record {
          capped = omega arith;
          contained = λ shown. cc shown;
          kept = omega arith;
          window = omega arith;
        })
        h

module _ (digits : ℕ → String) where
  Step-AllHonest : {e f : Engine} → Step digits e f → AllHonest e → AllHonest f
  unfolding watchdog_sweep failover_isolated
  Step-AllHonest {e} (batch now raw_id events) h =
      process_batch-AllHonest digits now raw_id events e h
  Step-AllHonest {e} (sweeps now) h = sweep-AllHonest now e.vms e h
  Step-AllHonest {e} (queried now) h = refresh_all-AllHonest now e.vms h
  Step-AllHonest (pops_block vm_id rest q) h = h
  Step-AllHonest {e} (blocks vm_id ok c) h = instant_block-AllHonest vm_id e h ok c
  Step-AllHonest (pops_isolation vm_id rest q) h = h
  Step-AllHonest {e} (begins vm_id) h = begin_isolation-AllHonest vm_id e h
  Step-AllHonest {e} (logs vm_id results) h = log_results-AllHonest vm_id e h results
  Step-AllHonest {e} (enforces vm_id results c) h = enforce_isolation-AllHonest vm_id e h results c
  Step-AllHonest {e} (fails_over vm_id a) h =
      let (o, reply) = handle_compromise vm_id a e.failover in
      record_failover-AllHonest vm_id (record e { failover = o }) h reply
  Step-AllHonest {e} (aborts vm_id) h = abort_and_restore-AllHonest vm_id e h
  Step-AllHonest (triages n w) h = h
  Step-AllHonest (orchestrates o s) h = h

  Reach-AllHonest : {e f : Engine} → AllHonest e → Reach digits e f → AllHonest f
  Reach-AllHonest h here = h
  Reach-AllHonest h (next r s) = Step-AllHonest s (Reach-AllHonest h r)

  -- From an engine with no machines, after any interleaving, a machine that is shown as ISOLATED has
  -- the flag of an enforced isolation, its score is at most 200, and its two deques hold at most 500
  -- events each.
  pub machines-IsHonest :
      {e f : Engine} (vm_id : String) (vm : VmState)
      → e.vms ≡ []
      → Reach digits e f
      → lookup vm_id f.vms ≡ some vm
      → IsHonest vm
  machines-IsHonest {e} {f} vm_id vm empty r found =
      All-lookup (λ x. IsHonest x.1) vm_id vm f.vms
        (Reach-AllHonest (subst (All (λ x. IsHonest x.1)) (sym empty) tt) r) found
