-- ===== src/Control/Isolation/Batch.antt =====
-- What a batch queues and decides.
use ganglion_oob.Prelude.{
  ℕ, String, Option, some, false, not, ◌&&◌, List, [], ◌∷◌, ◌++◌, ◌≡◌, ◌≢◌, refl, sym, ap, ◌∙◌, inl,
  inr, Bool-cases, if◌then◌else◌, leb, arith,
}
use ganglion_oob.Prelude.Dict.{lookup}
use ganglion_oob.Decision.{Verdict, failover, heal, Fact, Decision, decide}
use ganglion_oob.Decision.Policy.Verdicts.{never_heals}
use ganglion_oob.Decision.Policy.Continuity.{never_fails_over}
use ganglion_oob.Decision.Policy.{is_crown_jewel, default_engine}
use ganglion_oob.Control.VmId.{safe_vm_id}
use ganglion_oob.Control.Scoring.{VmState, isolation_threshold, recalculate_score}
use ganglion_oob.Control.Engine.{
  Engine, RawEvent, vm_of, is_logged, process_event, process_events, log_verdict, queue_isolation,
  fact_of, respond, process_batch,
}
use ganglion_oob.Control.Isolation.Outcome.{vm_of-put_vm}

log_verdict-queue :
    (vm_id : String) (f : Fact) (v : Verdict) (e : Engine)
    → (log_verdict vm_id f v e).isolation_queue ≡ e.isolation_queue
unfolding log_verdict
log_verdict-queue vm_id f v e =
    elim (Bool-cases (is_logged (lookup vm_id e.last_logged_verdict) v)) [
      | inl t ↦ rw (t, log_verdict) refl
      | inr t ↦ rw (t, log_verdict) refl
    ]

-- The queue with a machine added if its score and its flag ask for it.
abbrev pub queue_with : String → VmState → List String → List String
queue_with vm_id vm queue =
    if leb isolation_threshold vm.threat_score && not vm.isolated
    then queue ++ vm_id ∷ []
    else queue

queue_isolation-queue :
    (vm_id : String) (vm : VmState) (e : Engine)
    → (queue_isolation vm_id vm e).isolation_queue ≡ queue_with vm_id vm e.isolation_queue
unfolding queue_isolation
queue_isolation-queue vm_id vm e = ground arith

module _ (now : ℕ) (vm_id : String) (e : Engine) (vm : VmState) where
  scored : VmState
  scored = recalculate_score now vm

  chosen : Decision
  unfolding scored
  chosen = decide default_engine (fact_of e.seen_techniques scored)

  respond-vm : vm_of vm_id (respond now vm_id e vm) ≡ record scored { last_decision = some chosen }
  unfolding respond scored chosen
  respond-vm = vm_of-put_vm vm_id _ _

  respond-queue :
      (respond now vm_id e vm).isolation_queue
      ≡ queue_with vm_id (vm_of vm_id (respond now vm_id e vm)) e.isolation_queue
  unfolding respond scored chosen
  respond-queue =
      let logged = log_verdict vm_id (fact_of e.seen_techniques scored) chosen.verdict e in
      queue_isolation-queue vm_id scored logged
      ∙ ap (queue_with vm_id scored)
          (log_verdict-queue vm_id (fact_of e.seen_techniques scored) chosen.verdict e)
      ∙ ap (λ m. queue_with vm_id m e.isolation_queue) (sym respond-vm)

  respond-verdict :
      (d : Decision) × ((vm_of vm_id (respond now vm_id e vm)).last_decision ≡ some d)
      × (d.verdict ≢ failover)
      × (d.verdict ≢ heal)
  unfolding chosen fact_of is_crown_jewel
  respond-verdict =
      let f = fact_of e.seen_techniques scored in
      (chosen, ap (λ m. m.last_decision) respond-vm, never_fails_over f refl refl, never_heals f)

module _ (digits : ℕ → String) (now : ℕ) where
  process_events-queue :
      (vm_id : String) (events : List RawEvent) (e : Engine) (vm : VmState)
      → (process_events digits now vm_id events e vm).0.isolation_queue ≡ e.isolation_queue
  unfolding process_events process_event
  process_events-queue vm_id [] e vm = refl
  process_events-queue vm_id (raw ∷ rest) e vm =
      let (e', vm') = process_event digits now vm_id raw e vm in
      let step : e'.isolation_queue ≡ e.isolation_queue = ground arith in
      process_events-queue vm_id rest e' vm' ∙ step

  module _ (raw_id : Option String) (events : List RawEvent) (e : Engine) where
    abbrev pub done : Engine
    done = process_batch digits now raw_id events e

    abbrev pub machine : VmState
    machine = vm_of (safe_vm_id raw_id) done

    -- A batch puts its machine at the end of the isolation queue exactly if the score that it leads
    -- to has reached the threshold and the machine is not isolated; else it leaves the queue as it is.
    pub process_batch-queue : done.isolation_queue ≡ (
        if leb isolation_threshold machine.threat_score && not machine.isolated
        then e.isolation_queue ++ safe_vm_id raw_id ∷ []
        else e.isolation_queue)
    unfolding process_batch
    process_batch-queue =
        let vm_id = safe_vm_id raw_id in
        let seen = record (vm_of vm_id e) { last_seen = now; silent = false } in
        let (e', vm') = process_events digits now vm_id events e seen in
        respond-queue now vm_id e' vm'
        ∙ ap (queue_with vm_id machine) (process_events-queue vm_id events e seen)

    -- The control plane decides after every batch, and never to fail over or to heal: the default
    -- for the missing method has_standby answers False, so the policy's rules for continuity get no
    -- say.
    pub process_batch-verdict :
        (d : Decision) × (machine.last_decision ≡ some d)
        × (d.verdict ≢ failover)
        × (d.verdict ≢ heal)
    unfolding process_batch
    process_batch-verdict =
        let vm_id = safe_vm_id raw_id in
        let seen = record (vm_of vm_id e) { last_seen = now; silent = false } in
        let (e', vm') = process_events digits now vm_id events e seen in
        respond-verdict now vm_id e' vm'
