-- ===== src/Control/Server/Worker/Keeps.antt =====
-- What keeps a machine isolated: every part of the worker's round.
use mathlib.Core.Path.{subst}
use ganglion_oob.Prelude.{
  ◌+◌, String, some, Bool, true, false, List, [], ◌∷◌, ◌≡◌, refl, sym, ap, ◌∙◌, inl, inr,
  Bool-cases, str_eq, eq_iff,
}
use ganglion_oob.Prelude.Dict.{lookup, lookup-insert}
use ganglion_oob.Failover.Types.{Answers, Reply, nothing, key_error, reported}
use ganglion_oob.Failover.Compromise.{handle_compromise}
use ganglion_oob.Control.Scoring.{IrEntry, VmState, new_vm}
use ganglion_oob.Control.Engine.{Engine, get_or, vm_of, put_vm}
use ganglion_oob.Control.Isolation.{
  Containment, Response, log_ir, containment_line, instant_block, begin_isolation, log_results,
  enforce_isolation, record_failover, is_serving, failover_isolated, trigger_isolation,
  drain_blocks, drain_isolations,
}
use ganglion_oob.Control.Isolation.Outcome.{if_false, vm_of-put_vm}

abbrev pub isolated_at : String → Engine → Bool
isolated_at k e = (vm_of k e).isolated

-- Whatever is isolated stays so, and what is queued does not change.
pub record Keeps (e f : Engine) : Type 0 where
  pub isolations : (k : String) → isolated_at k e ≡ true → isolated_at k f ≡ true
  pub queue : f.isolation_queue ≡ e.isolation_queue
  pub blocks : f.block_queue ≡ e.block_queue

Keeps-trans : (e f g : Engine) → Keeps e f → Keeps f g → Keeps e g
Keeps-trans e f g a b = record {
  isolations = λ k h. b.isolations k (a.isolations k h);
  queue = b.queue ∙ a.queue;
  blocks = b.blocks ∙ a.blocks;
}

Keeps-same : (e : Engine) → Keeps e e
Keeps-same e = record { isolations = λ k h. h; queue = refl; blocks = refl }

-- What the other parts of the engine do leaves the machines alone.
pub same_vms-Keeps :
    (e f : Engine)
    → f.vms ≡ e.vms
    → f.isolation_queue ≡ e.isolation_queue
    → f.block_queue ≡ e.block_queue
    → Keeps e f
unfolding vm_of
same_vms-Keeps e f same q b = record {
  isolations = λ k h. ap (λ m. (get_or (new_vm k) (lookup k m)).isolated) same ∙ h;
  queue = q;
  blocks = b;
}

lookup-put_vm :
    (j k : String) (vm : VmState) (e : Engine)
    → str_eq j k ≡ false
    → lookup k (put_vm j vm e).vms ≡ lookup k e.vms
lookup-put_vm j k vm e t =
    lookup-insert j k vm e.vms ∙ sym (if_false (str_eq j k) (some vm) (lookup k e.vms) t)

pub put_vm-Keeps :
    (j : String) (vm : VmState) (e : Engine)
    → (isolated_at j e ≡ true → vm.isolated ≡ true)
    → Keeps e (put_vm j vm e)
unfolding vm_of
put_vm-Keeps j vm e h = record {
  isolations = λ k was. elim (Bool-cases (str_eq j k)) [
    | inl t ↦
        let same : j ≡ k = (eq_iff j k).0 t in
        let mine = h (subst (λ i. isolated_at i e ≡ true) (sym same) was) in
        subst (λ i. isolated_at i (put_vm j vm e) ≡ true) same
          (ap (λ v. v.isolated) (vm_of-put_vm j vm e) ∙ mine)
    | inr t ↦ ap (λ o. (get_or (new_vm k) o).isolated) (lookup-put_vm j k vm e t) ∙ was
  ];
  queue = refl;
  blocks = refl;
}

pub instant_block-Keeps :
    (j : String) (ok : Bool) (c : Containment) (e : Engine) → Keeps e (instant_block j ok c e)
unfolding instant_block
instant_block-Keeps j ok c e = elim (Bool-cases (vm_of j e).isolated) [
  | inl t ↦
      let kept : instant_block j ok c e ≡ put_vm j (vm_of j e) e = rw t refl in
      subst (Keeps e) (sym kept) (put_vm-Keeps j (vm_of j e) e (λ h. h))
  | inr t ↦
      let logged =
        log_ir (record { operation = "block_network"; success = ok } ∷ containment_line c)
          (vm_of j e) in
      let kept : instant_block j ok c e ≡ put_vm j logged e = rw t refl in
      subst (Keeps e) (sym kept) (put_vm-Keeps j logged e (λ h. h))
]

pub begin_isolation-Keeps : (j : String) (e : Engine) → Keeps e (begin_isolation j e).0
unfolding begin_isolation
begin_isolation-Keeps j e = elim (Bool-cases (vm_of j e).isolated) [
  | inl t ↦
      let kept : (begin_isolation j e).0 ≡ put_vm j (vm_of j e) e = rw t refl in
      subst (Keeps e) (sym kept) (put_vm-Keeps j (vm_of j e) e (λ h. h))
  | inr t ↦
      let marked = record (vm_of j e) { isolated = true } in
      let kept : (begin_isolation j e).0 ≡ put_vm j marked e = rw t refl in
      subst (Keeps e) (sym kept) (put_vm-Keeps j marked e (λ h. refl))
]

pub log_results-Keeps :
    (j : String) (results : List IrEntry) (e : Engine) → Keeps e (log_results j results e)
unfolding log_results
log_results-Keeps j results e = put_vm-Keeps j (log_ir results (vm_of j e)) e (λ h. h)

pub enforce_isolation-Keeps :
    (j : String) (results : List IrEntry) (c : Containment) (e : Engine)
    → Keeps e (enforce_isolation j results c e)
unfolding enforce_isolation
enforce_isolation-Keeps j results c e = put_vm-Keeps j _ e (λ h. h)

pub record_failover-Keeps :
    (j : String) (reply : Reply) (e : Engine) → Keeps e (record_failover j reply e)
unfolding record_failover
record_failover-Keeps j nothing e = Keeps-same e
record_failover-Keeps j key_error e = Keeps-same e
record_failover-Keeps j (reported p) e =
    let counted = record e { failover_count = e.failover_count + 1 } in
    Keeps-trans e counted _ (same_vms-Keeps e counted refl refl refl) (
      put_vm-Keeps j
        (log_ir (record { operation = "failover"; success = is_serving p.state } ∷ [])
          (vm_of j counted))
        counted (λ h. h))

pub failover_isolated-Keeps :
    (j : String) (a : Answers) (e : Engine) → Keeps e (failover_isolated j a e)
unfolding failover_isolated
failover_isolated-Keeps j a e =
    let (o, reply) = handle_compromise j a e.failover in
    let g = record e { failover = o } in
    Keeps-trans e g _ (same_vms-Keeps e g refl refl refl) (record_failover-Keeps j reply g)

pub trigger_isolation-Keeps :
    (j : String) (r : Response) (e : Engine) → Keeps e (trigger_isolation j r e)
unfolding trigger_isolation
trigger_isolation-Keeps j r e =
    let begun = (begin_isolation j e).0 in
    let logged = log_results j r.results begun in
    let enforced = enforce_isolation j r.results r.containment logged in
    let first = begin_isolation-Keeps j e in
    elim (Bool-cases (begin_isolation j e).1) [
      | inl go ↦
          let kept : trigger_isolation j r e ≡ failover_isolated j r.answers enforced =
            rw (go, trigger_isolation) refl in
          subst (Keeps e) (sym kept) (
            Keeps-trans e begun _ first (
              Keeps-trans begun logged _ (log_results-Keeps j r.results begun) (
                Keeps-trans logged enforced _
                  (enforce_isolation-Keeps j r.results r.containment logged)
                  (failover_isolated-Keeps j r.answers enforced))))
      | inr stop ↦
          let kept : trigger_isolation j r e ≡ begun = rw (stop, trigger_isolation) refl in
          subst (Keeps e) (sym kept) first
    ]

pub drain_blocks-Keeps :
    (answer : String → Bool × Containment) (l : List String) (e : Engine)
    → Keeps e (drain_blocks answer l e)
unfolding drain_blocks
drain_blocks-Keeps answer [] e = Keeps-same e
drain_blocks-Keeps answer (j ∷ l) e =
    let f = instant_block j (answer j).0 (answer j).1 e in
    Keeps-trans e f _ (instant_block-Keeps j (answer j).0 (answer j).1 e)
      (drain_blocks-Keeps answer l f)

pub drain_isolations-Keeps :
    (answer : String → Response) (l : List String) (e : Engine)
    → Keeps e (drain_isolations answer l e)
unfolding drain_isolations
drain_isolations-Keeps answer [] e = Keeps-same e
drain_isolations-Keeps answer (j ∷ l) e =
    let f = trigger_isolation j (answer j) e in
    Keeps-trans e f _ (trigger_isolation-Keeps j (answer j) e) (drain_isolations-Keeps answer l f)
