-- ===== src/Control/Isolation/Flags.antt =====
-- What leaves the flag of a machine's enforced isolation as it is: all but an enforcement and an abort.
use mathlib.Core.Path.{subst}
use ganglion_oob.Prelude.{
  ℕ, ◌+◌, String, Option, some, Bool, true, false, List, [], ◌∷◌, ◌≡◌, refl, sym, ap, ◌∙◌, inl, inr,
  Bool-cases, if◌then◌else◌, str_eq, eq_iff, arith,
}
use ganglion_oob.Prelude.Dict.{Dict, lookup, insert, lookup-insert}
use ganglion_oob.Decision.{Verdict, Fact, decide}
use ganglion_oob.Decision.Policy.{default_engine}
use ganglion_oob.Failover.Types.{Answers, Reply, nothing, key_error, reported}
use ganglion_oob.Failover.Compromise.{handle_compromise}
use ganglion_oob.Control.VmId.{safe_vm_id}
use ganglion_oob.Control.Scoring.{VmState, new_vm, recalculate_score}
use ganglion_oob.Control.Engine.{
  Engine, RawEvent, get_or, vm_of, put_vm, process_event, process_events, log_verdict,
  queue_isolation, fact_of, respond, process_batch, is_overdue, flag_silent, sweep, refresh_all,
  add_seen,
}
use ganglion_oob.Control.Isolation.{
  Containment, log_ir, containment_line, instant_block, begin_isolation, is_serving,
  record_failover, failover_isolated,
}
use ganglion_oob.Control.Isolation.Outcome.{vm_of-put_vm}

abbrev pub enforced_at : String → Engine → Bool
enforced_at k e = (vm_of k e).isolation_enforced

-- What puts back a machine with its flag as it was leaves every machine's flag.
pub put_vm-enforced :
    (j k : String) (vm : VmState) (e : Engine)
    → vm.isolation_enforced ≡ enforced_at j e
    → enforced_at k (put_vm j vm e) ≡ enforced_at k e
unfolding vm_of
put_vm-enforced j k vm e same = elim (Bool-cases (str_eq j k)) [
  | inl t ↦
      let is_k : j ≡ k = (eq_iff j k).0 t in
      subst (λ i. enforced_at i (put_vm j vm e) ≡ enforced_at i e) is_k
        (ap (λ (m : VmState). m.isolation_enforced) (vm_of-put_vm j vm e) ∙ same)
  | inr t ↦
      let apart : lookup k (insert j vm e.vms) ≡ lookup k e.vms =
        ground (arith, lookup-insert j k vm e.vms, t) in
      ap (λ o. (get_or (new_vm k) o).isolation_enforced) apart
]

pub other_vm-enforced :
    (j k : String) (vm : VmState) (e : Engine)
    → str_eq j k ≡ false
    → enforced_at k (put_vm j vm e) ≡ enforced_at k e
unfolding vm_of
other_vm-enforced j k vm e t =
    let apart : lookup k (insert j vm e.vms) ≡ lookup k e.vms =
      ground (arith, lookup-insert j k vm e.vms, t) in
    ap (λ o. (get_or (new_vm k) o).isolation_enforced) apart

pub same_vms-enforced :
    (k : String) (e f : Engine) → f.vms ≡ e.vms → enforced_at k f ≡ enforced_at k e
unfolding vm_of
same_vms-enforced k e f same = ap (λ m. (get_or (new_vm k) (lookup k m)).isolation_enforced) same

pub process_events-enforced :
    (digits : ℕ → String) (now : ℕ) (vm_id : String) (events : List RawEvent) (e : Engine)
    (vm : VmState)
    → ((process_events digits now vm_id events e vm).0.vms ≡ e.vms)
      × ((process_events digits now vm_id events e vm).1.isolation_enforced ≡ vm.isolation_enforced)
unfolding process_events process_event
process_events-enforced digits now vm_id [] e vm = (refl, refl)
process_events-enforced digits now vm_id (raw ∷ rest) e vm =
    let (e', vm') = process_event digits now vm_id raw e vm in
    let vms : e'.vms ≡ e.vms = ground arith in
    let same : vm'.isolation_enforced ≡ vm.isolation_enforced = ground arith in
    let (vms', same') = process_events-enforced digits now vm_id rest e' vm' in
    (vms' ∙ vms, same' ∙ same)

log_verdict-vms :
    (vm_id : String) (f : Fact) (v : Verdict) (e : Engine) → (log_verdict vm_id f v e).vms ≡ e.vms
unfolding log_verdict
log_verdict-vms vm_id f v e = ground arith

queue_isolation-vms :
    (vm_id : String) (vm : VmState) (e : Engine) → (queue_isolation vm_id vm e).vms ≡ e.vms
unfolding queue_isolation
queue_isolation-vms vm_id vm e = ground arith

pub recalculate_score-enforced :
    (now : ℕ) (vm : VmState) → (recalculate_score now vm).isolation_enforced ≡ vm.isolation_enforced
unfolding recalculate_score
recalculate_score-enforced now vm = refl

pub respond-enforced :
    (now : ℕ) (k vm_id : String) (e : Engine) (vm : VmState)
    → vm.isolation_enforced ≡ enforced_at vm_id e
    → enforced_at k (respond now vm_id e vm) ≡ enforced_at k e
unfolding respond
respond-enforced now k vm_id e vm same =
    let scored = recalculate_score now vm in
    let f = fact_of e.seen_techniques scored in
    let decision = decide default_engine f in
    let logged = log_verdict vm_id f decision.verdict e in
    let queued = queue_isolation vm_id scored logged in
    let vms : queued.vms ≡ e.vms =
      queue_isolation-vms vm_id scored logged ∙ log_verdict-vms vm_id f decision.verdict e in
    put_vm-enforced vm_id k (record scored { last_decision = some decision }) queued
      (recalculate_score-enforced now vm ∙ same ∙ sym (same_vms-enforced vm_id e queued vms))
    ∙ same_vms-enforced k e queued vms

pub process_batch-enforced :
    (digits : ℕ → String) (now : ℕ) (k : String) (raw_id : Option String) (events : List RawEvent)
    (e : Engine)
    → enforced_at k (process_batch digits now raw_id events e) ≡ enforced_at k e
unfolding process_batch
process_batch-enforced digits now k raw_id events e =
    let vm_id = safe_vm_id raw_id in
    let seen = record (vm_of vm_id e) { last_seen = now; silent = false } in
    let (e', vm') = process_events digits now vm_id events e seen in
    let (vms, same) = process_events-enforced digits now vm_id events e seen in
    respond-enforced now k vm_id e' vm' (same ∙ sym (same_vms-enforced vm_id e e' vms))
    ∙ same_vms-enforced k e e' vms

-- The machines of a dict are replaced by ones with the same flags.
unfoldable pub flag_of : String → Dict VmState → Bool
flag_of k vms = (get_or (new_vm k) (lookup k vms)).isolation_enforced

pub swept-enforced :
    (now : ℕ) (k : String) (vm : VmState) (same late : Bool) (rest rest' : Option VmState)
    → (get_or (new_vm k) rest).isolation_enforced ≡ (get_or (new_vm k) rest').isolation_enforced
    → (get_or
        (new_vm k)
        (if same then some (if late then flag_silent now vm else vm) else rest)).isolation_enforced
      ≡ (get_or (new_vm k) (if same then some vm else rest')).isolation_enforced
unfolding flag_silent recalculate_score
swept-enforced now k vm true true rest rest' h = refl
swept-enforced now k vm true false rest rest' h = refl
swept-enforced now k vm false late rest rest' h = h

pub sweep-enforced :
    (now : ℕ) (k : String) (vms : Dict VmState) (e : Engine)
    → flag_of k (sweep now vms e).0 ≡ flag_of k vms
unfolding sweep lookup flag_of
sweep-enforced now k [] e = refl
sweep-enforced now k ((j, vm) ∷ vms) e =
    let late = is_overdue now vm in
    let vm' = if late then flag_silent now vm else vm in
    let marked = record e { seen_techniques = add_seen "T1562.001" e.seen_techniques } in
    let e' = if late then queue_isolation vm.vm_id vm' marked else e in
    swept-enforced now k vm (str_eq j k) late (lookup k (sweep now vms e').0) (lookup k vms)
      (sweep-enforced now k vms e')

pub refreshed-enforced :
    (now : ℕ) (k : String) (vm : VmState) (same : Bool) (rest rest' : Option VmState)
    → (get_or (new_vm k) rest).isolation_enforced ≡ (get_or (new_vm k) rest').isolation_enforced
    → (get_or
        (new_vm k)
        (if same then some (recalculate_score now vm) else rest)).isolation_enforced
      ≡ (get_or (new_vm k) (if same then some vm else rest')).isolation_enforced
unfolding recalculate_score
refreshed-enforced now k vm true rest rest' h = refl
refreshed-enforced now k vm false rest rest' h = h

pub refresh_all-enforced :
    (now : ℕ) (k : String) (vms : Dict VmState) → flag_of k (refresh_all now vms) ≡ flag_of k vms
unfolding refresh_all lookup flag_of
refresh_all-enforced now k [] = refl
refresh_all-enforced now k ((j, vm) ∷ vms) =
    refreshed-enforced now k vm (str_eq j k) (lookup k (refresh_all now vms)) (lookup k vms)
      (refresh_all-enforced now k vms)

pub instant_block-enforced :
    (k vm_id : String) (ok : Bool) (c : Containment) (e : Engine)
    → enforced_at k (instant_block vm_id ok c e) ≡ enforced_at k e
unfolding instant_block
instant_block-enforced k vm_id ok c e = elim (Bool-cases (vm_of vm_id e).isolated) [
  | inl t ↦
      let kept : instant_block vm_id ok c e ≡ put_vm vm_id (vm_of vm_id e) e = rw t refl in
      ap (enforced_at k) kept ∙ put_vm-enforced vm_id k (vm_of vm_id e) e refl
  | inr t ↦
      let logged =
        log_ir (record { operation = "block_network"; success = ok } ∷ containment_line c)
          (vm_of vm_id e) in
      let kept : instant_block vm_id ok c e ≡ put_vm vm_id logged e = rw t refl in
      ap (enforced_at k) kept ∙ put_vm-enforced vm_id k logged e refl
]

pub begin_isolation-enforced :
    (k vm_id : String) (e : Engine) → enforced_at k (begin_isolation vm_id e).0 ≡ enforced_at k e
unfolding begin_isolation
begin_isolation-enforced k vm_id e = elim (Bool-cases (vm_of vm_id e).isolated) [
  | inl t ↦
      let kept : (begin_isolation vm_id e).0 ≡ put_vm vm_id (vm_of vm_id e) e = rw t refl in
      ap (enforced_at k) kept ∙ put_vm-enforced vm_id k (vm_of vm_id e) e refl
  | inr t ↦
      let marked = record (vm_of vm_id e) { isolated = true } in
      let kept : (begin_isolation vm_id e).0 ≡ put_vm vm_id marked e = rw t refl in
      ap (enforced_at k) kept ∙ put_vm-enforced vm_id k marked e refl
]

pub record_failover-enforced :
    (k vm_id : String) (r : Reply) (e : Engine)
    → enforced_at k (record_failover vm_id r e) ≡ enforced_at k e
unfolding record_failover
record_failover-enforced k vm_id nothing e = refl
record_failover-enforced k vm_id key_error e = refl
record_failover-enforced k vm_id (reported p) e =
    let counted = record e { failover_count = e.failover_count + 1 } in
    put_vm-enforced vm_id k
      (log_ir (record { operation = "failover"; success = is_serving p.state } ∷ [])
        (vm_of vm_id counted))
      counted refl
    ∙ same_vms-enforced k e counted refl

pub failover_isolated-enforced :
    (k vm_id : String) (a : Answers) (e : Engine)
    → enforced_at k (failover_isolated vm_id a e) ≡ enforced_at k e
unfolding failover_isolated
failover_isolated-enforced k vm_id a e =
    let (o, reply) = handle_compromise vm_id a e.failover in
    let g = record e { failover = o } in
    record_failover-enforced k vm_id reply g ∙ same_vms-enforced k e g refl
