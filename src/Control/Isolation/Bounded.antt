-- ===== src/Control/Isolation/Bounded.antt =====
-- Bounds on the machines' scores and deques, and the status they show: scoring keeps them.
use mathlib.Core.Path.{subst}
use ganglion_oob.Decision.{Verdict, Fact, decide}
use ganglion_oob.Decision.Policy.{default_engine}
use ganglion_oob.Prelude.{
  ℕ, ◌-◌, ◌≤◌, String, Option, some, Bool, true, false, List, [], ◌∷◌, ◌++◌, ◌≡◌, refl, sym, ◌∙◌,
  inl, inr, Bool-cases, Option-cases, str_eq, arith, All, length, length-drop,
}
use ganglion_oob.Prelude.Dict.{Dict, lookup, All-insert, All-lookup}
use ganglion_oob.Control.VmId.{safe_vm_id}
use ganglion_oob.Control.Scoring.{
  ScoredEvent, Status, VmState, new_vm, push_event, purge_from, purge_expired, status_for,
  recalculate_score,
}
use ganglion_oob.Control.Engine.{
  Engine, RawEvent, get_or, vm_of, process_event, process_events, log_verdict, is_logged, fact_of,
  queue_isolation, respond, process_batch, is_overdue, flag_silent, sweep, refresh_all, put_vm,
}

pub record IsHonest (vm : VmState) : Type 0 where
  pub capped : vm.threat_score ≤ 200
  pub contained : vm.status ≡ Status.isolated → vm.isolation_enforced ≡ true
  pub kept : length vm.events ≤ 500
  pub window : length vm.scored_events ≤ 500

abbrev pub AllHonest : Engine → Type 0
AllHonest e = All (λ x. IsHonest x.1) e.vms

length-push_event : (se : ScoredEvent) (l : List ScoredEvent) → length (push_event se l) ≤ 500
unfolding push_event
length-push_event se l = omega (arith, length-drop (length (l ++ se ∷ []) - 500) (l ++ se ∷ []))

length-purge_from : (now : ℕ) (l : List ScoredEvent) → length (purge_from now l) ≤ length l
unfolding purge_from
length-purge_from now [] = omega arith
length-purge_from now (e ∷ l) = ground (arith, length-purge_from now l)

status_for-isolated : (b c : Bool) (n : ℕ) → status_for b c n ≡ Status.isolated → c ≡ true
unfolding status_for
status_for-isolated b c n h = ground arith

pub recalculate-IsHonest :
    (now : ℕ) (vm : VmState) → IsHonest vm → IsHonest (recalculate_score now vm)
unfolding recalculate_score purge_expired
recalculate-IsHonest now vm h = record {
  capped = omega arith;
  contained = λ e.
      status_for-isolated vm.isolated vm.isolation_enforced (recalculate_score now vm).threat_score
        e;
  kept = h.kept;
  window = omega (arith, length-purge_from now vm.scored_events, h.window);
}

new_vm-IsHonest : (vm_id : String) → IsHonest (new_vm vm_id)
new_vm-IsHonest vm_id = record {
  capped = omega arith;
  contained = λ e. cc e;
  kept = omega arith;
  window = omega arith;
}

pub vm_of-IsHonest : (vm_id : String) (e : Engine) → AllHonest e → IsHonest (vm_of vm_id e)
unfolding vm_of
vm_of-IsHonest vm_id e h = elim (Option-cases (lookup vm_id e.vms)) [
  | inl t ↦ rw (t, vm_of) (new_vm-IsHonest vm_id)
  | inr (vm, t) ↦ rw (t, vm_of) (All-lookup (λ x. IsHonest x.1) vm_id vm e.vms h t)
]

pub put_vm-AllHonest :
    (vm_id : String) (vm : VmState) (e : Engine)
    → IsHonest vm
    → AllHonest e
    → AllHonest (put_vm vm_id vm e)
put_vm-AllHonest vm_id vm e hv h = All-insert (λ x. IsHonest x.1) vm_id vm e.vms hv h

module _ (digits : ℕ → String) where
  -- Taking in an event leaves the dict of machines alone.
  abbrev Taken : Engine → Engine × VmState → Type 0
  Taken e r = (r.0.vms ≡ e.vms) × IsHonest r.1

  process_event-Taken :
      (now : ℕ) (vm_id : String) (raw : RawEvent) (e : Engine) (vm : VmState)
      → IsHonest vm
      → Taken e (process_event digits now vm_id raw e vm)
  unfolding process_event
  process_event-Taken now vm_id raw e vm h =
      elim (Bool-cases (str_eq (get_or "unknown" raw.event_type) "heartbeat")) [
        | inl t ↦ rw t (
          refl,
          record { capped = h.capped; contained = h.contained; kept = h.kept; window = h.window },
        )
        | inr t ↦ rw t (
          refl,
          record {
            capped = h.capped;
            contained = h.contained;
            kept = length-push_event _ vm.events;
            window = length-push_event _ vm.scored_events;
          },
        )
      ]

  process_events-Taken :
      (now : ℕ) (vm_id : String) (events : List RawEvent) (e : Engine) (vm : VmState)
      → IsHonest vm
      → Taken e (process_events digits now vm_id events e vm)
  unfolding process_events
  process_events-Taken now vm_id [] e vm h = (refl, h)
  process_events-Taken now vm_id (raw ∷ rest) e vm h =
      let (e', vm') = process_event digits now vm_id raw e vm in
      let (same, h') = process_event-Taken now vm_id raw e vm h in
      let (same', h'') = process_events-Taken now vm_id rest e' vm' h' in (same' ∙ same, h'')

log_verdict-vms :
    (vm_id : String) (f : Fact) (v : Verdict) (e : Engine) → (log_verdict vm_id f v e).vms ≡ e.vms
unfolding log_verdict
log_verdict-vms vm_id f v e = elim (Bool-cases (is_logged (lookup vm_id e.last_logged_verdict) v)) [
  | inl t ↦ rw (t, log_verdict) refl
  | inr t ↦ rw (t, log_verdict) refl
]

queue_isolation-vms :
    (vm_id : String) (vm : VmState) (e : Engine) → (queue_isolation vm_id vm e).vms ≡ e.vms
unfolding queue_isolation
queue_isolation-vms vm_id vm e = ground arith

respond-AllHonest :
    (now : ℕ) (vm_id : String) (e : Engine) (vm : VmState)
    → AllHonest e
    → IsHonest vm
    → AllHonest (respond now vm_id e vm)
unfolding respond
respond-AllHonest now vm_id e vm h hv =
    let scored = recalculate_score now vm in
    let f = fact_of e.seen_techniques scored in
    let decision = decide default_engine f in
    let logged = log_verdict vm_id f decision.verdict e in
    let same : (queue_isolation vm_id scored logged).vms ≡ e.vms =
      queue_isolation-vms vm_id scored logged ∙ log_verdict-vms vm_id f decision.verdict e in
    let r = recalculate-IsHonest now vm hv in
    put_vm-AllHonest vm_id (record scored { last_decision = some decision })
      (queue_isolation vm_id scored logged)
      (record { capped = r.capped; contained = r.contained; kept = r.kept; window = r.window })
      (subst (All (λ x. IsHonest x.1)) (sym same) h)

pub process_batch-AllHonest :
    (digits : ℕ → String) (now : ℕ) (raw_id : Option String) (events : List RawEvent) (e : Engine)
    → AllHonest e
    → AllHonest (process_batch digits now raw_id events e)
unfolding process_batch
process_batch-AllHonest digits now raw_id events e h =
    let vm_id = safe_vm_id raw_id in
    let seen = record (vm_of vm_id e) { last_seen = now; silent = false } in
    let (e', vm') = process_events digits now vm_id events e seen in
    let v = vm_of-IsHonest vm_id e h in
    let (same, hv) =
      process_events-Taken digits now vm_id events e seen
        (record { capped = v.capped; contained = v.contained; kept = v.kept; window = v.window }) in
    respond-AllHonest now vm_id e' vm' (subst (All (λ x. IsHonest x.1)) (sym same) h) hv

flag_silent-IsHonest : (now : ℕ) (vm : VmState) → IsHonest vm → IsHonest (flag_silent now vm)
unfolding flag_silent
flag_silent-IsHonest now vm h = recalculate-IsHonest now _ (record {
  capped = h.capped;
  contained = h.contained;
  kept = length-push_event _ vm.events;
  window = length-push_event _ vm.scored_events;
})

pub sweep-AllHonest :
    (now : ℕ) (vms : Dict VmState) (e : Engine)
    → All (λ x. IsHonest x.1) vms
    → All (λ x. IsHonest x.1) (sweep now vms e).0
unfolding sweep
sweep-AllHonest now [] e h = tt
sweep-AllHonest now ((k, vm) ∷ vms) e h = elim (Bool-cases (is_overdue now vm)) [
  | inl t ↦ rw t (flag_silent-IsHonest now vm h.0, sweep-AllHonest now vms _ h.1)
  | inr t ↦ rw t (h.0, sweep-AllHonest now vms _ h.1)
]

pub refresh_all-AllHonest :
    (now : ℕ) (vms : Dict VmState)
    → All (λ x. IsHonest x.1) vms
    → All (λ x. IsHonest x.1) (refresh_all now vms)
unfolding refresh_all
refresh_all-AllHonest now [] h = tt
refresh_all-AllHonest now ((k, vm) ∷ vms) h =
    (recalculate-IsHonest now vm h.0, refresh_all-AllHonest now vms h.1)
