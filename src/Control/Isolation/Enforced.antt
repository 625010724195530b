-- ===== src/Control/Isolation/Enforced.antt =====
-- A machine is shown as ISOLATED only on the word of something that cut its network.
use mathlib.Core.Path.{subst}
use ganglion_oob.Prelude.{
  ℕ, String, some, Bool, true, false, ◌||◌, List, [], ◌≡◌, refl, sym, ap, ◌∙◌, inl, inr, Bool-cases,
  str_eq, eq_iff,
}
use ganglion_oob.Prelude.Dict.{lookup}
use ganglion_oob.Control.Scoring.{IrEntry, Status, VmState, new_vm}
use ganglion_oob.Control.Engine.{Engine, get_or, vm_of, watchdog_sweep}
use ganglion_oob.Control.Isolation.{
  Containment, log_ir, log_results, net_ok, host_ok, enforce_isolation, restore_service,
  abort_and_restore,
}
use ganglion_oob.Control.Isolation.Outcome.{vm_of-put_vm}
use ganglion_oob.Control.Isolation.Honest.{machines-IsHonest}
use ganglion_oob.Control.Isolation.Flags.{
  enforced_at, flag_of, put_vm-enforced, other_vm-enforced, same_vms-enforced,
  process_batch-enforced, sweep-enforced, refresh_all-enforced, instant_block-enforced,
  begin_isolation-enforced, failover_isolated-enforced,
}
use ganglion_oob.Control.Isolation.Steps.{
  Step, Reach, here, next, batch, sweeps, queried, pops_block, blocks, pops_isolation, begins, logs,
  enforces, fails_over, aborts, triages, orchestrates,
}

module _ (digits : ℕ → String) where
  -- An abort of the machine, or a later enforcement for it, takes the place of an earlier one.
  abbrev pub is_overridden : String → {e f : Engine} → Step digits e f → Bool
  is_overridden k (aborts vm_id) = str_eq vm_id k
  is_overridden k (enforces vm_id results c) = str_eq vm_id k
  is_overridden k s = false

  -- In the run, the last enforcement for the machine was told that its network was cut, by the
  -- hypervisor or by a live host containment that did not raise, and no abort came since.
  pub data WasEnforced (k : String) (e : Engine) : (f : Engine) → Reach digits e f → Type 0 where
    enforced :
        {f : Engine} {r : Reach digits e f} {results : List IrEntry} {c : Containment}
        → (net_ok results || host_ok c) ≡ true
        → WasEnforced k e (enforce_isolation k results c f) (next r (enforces k results c))
    still :
        {f g : Engine} {r : Reach digits e f} {s : Step digits f g}
        → is_overridden k s ≡ false
        → WasEnforced k e f r
        → WasEnforced k e g (next r s)

module _ (digits : ℕ → String) (k : String) where
  -- Only an enforcement and an abort touch the flag.
  Step-enforced :
      {e f : Engine} (s : Step digits e f)
      → is_overridden digits k s ≡ false
      → enforced_at k f ≡ enforced_at k e
  unfolding watchdog_sweep flag_of vm_of log_results enforce_isolation abort_and_restore
  Step-enforced {e} (batch now raw_id events) h =
      process_batch-enforced digits now k raw_id events e
  Step-enforced {e} (sweeps now) h = sweep-enforced now k e.vms e
  Step-enforced {e} (queried now) h = refresh_all-enforced now k e.vms
  Step-enforced (pops_block vm_id rest q) h = refl
  Step-enforced {e} (blocks vm_id ok c) h = instant_block-enforced k vm_id ok c e
  Step-enforced (pops_isolation vm_id rest q) h = refl
  Step-enforced {e} (begins vm_id) h = begin_isolation-enforced k vm_id e
  Step-enforced {e} (logs vm_id results) h =
      put_vm-enforced vm_id k (log_ir results (vm_of vm_id e)) e refl
  Step-enforced {e} (enforces vm_id results c) h = other_vm-enforced vm_id k _ e h
  Step-enforced {e} (fails_over vm_id a) h = failover_isolated-enforced k vm_id a e
  Step-enforced {e} (aborts vm_id) h =
      let restored = record e {
        failover = restore_service (lookup vm_id e.failover.vm_to_service) e.failover;
      } in
      other_vm-enforced vm_id k _ restored h ∙ same_vms-enforced k e restored refl
  Step-enforced (triages n w) h = refl
  Step-enforced (orchestrates o s) h = refl

  enforces-enforced :
      (results : List IrEntry) (c : Containment) (e : Engine)
      → enforced_at k (enforce_isolation k results c e) ≡ (net_ok results || host_ok c)
  unfolding enforce_isolation
  enforces-enforced results c e = ap (λ (m : VmState). m.isolation_enforced) (vm_of-put_vm k _ e)

  aborts-enforced : (e : Engine) → enforced_at k (abort_and_restore k e) ≡ false
  unfolding abort_and_restore
  aborts-enforced e =
      let restored = record e {
        failover = restore_service (lookup k e.failover.vm_to_service) e.failover;
      } in
      ap (λ (m : VmState). m.isolation_enforced) (vm_of-put_vm k _ restored)

  quiet_step :
      {e f g : Engine} (r : Reach digits e f) (s : Step digits f g)
      → is_overridden digits k s ≡ false
      → (enforced_at k f ≡ true → WasEnforced digits k e f r)
      → enforced_at k g ≡ true
      → WasEnforced digits k e g (next r s)
  quiet_step r s q before set = still q (before (sym (Step-enforced s q) ∙ set))

  -- The last step of a run that ends with the flag set.
  last_enforced :
      {e f g : Engine} (r : Reach digits e f) (s : Step digits f g)
      → (enforced_at k f ≡ true → WasEnforced digits k e f r)
      → enforced_at k g ≡ true
      → WasEnforced digits k e g (next r s)
  last_enforced {e} {f} r (enforces vm_id results c) before set =
      elim (Bool-cases (str_eq vm_id k)) [
        | inl t ↦
            let same : vm_id ≡ k = (eq_iff vm_id k).0 t in
            let told : enforced_at k (enforce_isolation k results c f) ≡ true =
              subst (λ j. enforced_at k (enforce_isolation j results c f) ≡ true) same set in
            subst
              (λ j.
                WasEnforced digits k e (enforce_isolation j results c f)
                  (next r (enforces j results c)))
              (sym same) (enforced (sym (enforces-enforced results c f) ∙ told))
        | inr t ↦ quiet_step r (enforces vm_id results c) t before set
      ]
  last_enforced {e} {f} r (aborts vm_id) before set = elim (Bool-cases (str_eq vm_id k)) [
    | inl t ↦
        let told : enforced_at k (abort_and_restore k f) ≡ true =
          subst (λ j. enforced_at k (abort_and_restore j f) ≡ true) ((eq_iff vm_id k).0 t) set in
        let no_way : false ≡ true = sym (aborts-enforced f) ∙ told in absurd (cc no_way)
    | inr t ↦ quiet_step r (aborts vm_id) t before set
  ]
  last_enforced r (batch now raw_id events) before set =
      quiet_step r (batch now raw_id events) refl before set
  last_enforced r (sweeps now) before set = quiet_step r (sweeps now) refl before set
  last_enforced r (queried now) before set = quiet_step r (queried now) refl before set
  last_enforced r (pops_block j rest q) before set =
      quiet_step r (pops_block j rest q) refl before set
  last_enforced r (blocks j ok c) before set = quiet_step r (blocks j ok c) refl before set
  last_enforced r (pops_isolation j rest q) before set =
      quiet_step r (pops_isolation j rest q) refl before set
  last_enforced r (begins j) before set = quiet_step r (begins j) refl before set
  last_enforced r (logs j results) before set = quiet_step r (logs j results) refl before set
  last_enforced r (fails_over j a) before set = quiet_step r (fails_over j a) refl before set
  last_enforced r (triages n w) before set = quiet_step r (triages n w) refl before set
  last_enforced r (orchestrates o t) before set = quiet_step r (orchestrates o t) refl before set

  Reach-WasEnforced :
      {e f : Engine} (r : Reach digits e f)
      → e.vms ≡ []
      → enforced_at k f ≡ true
      → WasEnforced digits k e f r
  unfolding vm_of lookup
  Reach-WasEnforced {e} here empty set =
      let no_way : false ≡ true =
        sym (ap (λ m. (get_or (new_vm k) (lookup k m)).isolation_enforced) empty) ∙ set in
      absurd (cc no_way)
  Reach-WasEnforced (next r s) empty set = last_enforced r s (Reach-WasEnforced r empty) set

  -- No hopeful ISOLATED: from an engine with no machines, after any interleaving of batches, sweeps,
  -- queries, hard blocks, isolations, aborts and the background threads of failover, a machine that
  -- is shown as ISOLATED had an enforcement in which the hypervisor reported a network cut as done or
  -- a live host containment returned without raising, and since then neither an abort of it nor
  -- another enforcement for it.
  pub isolated-WasEnforced :
      {e f : Engine} (vm : VmState) (r : Reach digits e f)
      → e.vms ≡ []
      → lookup k f.vms ≡ some vm
      → vm.status ≡ Status.isolated
      → WasEnforced digits k e f r
  unfolding vm_of
  isolated-WasEnforced {e} {f} vm r empty found shown =
      let flagged = (machines-IsHonest digits k vm empty r found).contained shown in
      let at_k : enforced_at k f ≡ vm.isolation_enforced =
        ap (λ o. (get_or (new_vm k) o).isolation_enforced) found in
      Reach-WasEnforced r empty (at_k ∙ flagged)
