-- ===== src/Control/Server/Worker/Drained.antt =====
-- What is queued is carried out: nothing that the worker does takes a machine's isolation back.
use mathlib.Core.Path.{subst}
use ganglion_oob.Prelude.{
  ℕ, ◌+◌, String, Option, some, Bool, true, false, ◌||◌, List, [], ◌∷◌, ◌++◌, ◌≡◌, refl, sym, ap,
  ◌∙◌, inl, inr, Bool-cases, if◌then◌else◌, str_eq, eq_iff, arith, leb, ltb,
}
use ganglion_oob.Prelude.Dict.{Dict, lookup}
use ganglion_oob.Control.VmId.{safe_vm_id}
use ganglion_oob.Control.Scoring.{Status, VmState, new_vm, isolation_threshold, recalculate_score}
use ganglion_oob.Control.Engine.{
  Engine, RawEvent, get_or, vm_of, process_batch, is_overdue, flag_silent, queue_isolation, sweep,
  watchdog_sweep, add_seen,
}
use ganglion_oob.Control.Isolation.{
  Containment, Response, trigger_isolation, drain_blocks, drain_isolations, drain_queues,
}
use ganglion_oob.Control.Isolation.Outcome.{trigger_isolation-flags}
use ganglion_oob.Control.Isolation.Batch.{process_batch-queue}
use ganglion_oob.Control.Server.{is_listed}
use ganglion_oob.Control.Server.Worker.{Worker, round}
use ganglion_oob.Control.Server.Worker.Keeps.{
  isolated_at, trigger_isolation-Keeps, drain_blocks-Keeps, drain_isolations-Keeps,
}

-- The machine of an isolation is isolated after it, whatever the outside answers.
trigger_isolation-isolated :
    (j : String) (r : Response) (e : Engine) → isolated_at j (trigger_isolation j r e) ≡ true
trigger_isolation-isolated j r e = elim (Bool-cases (isolated_at j e)) [
  | inl was ↦ (trigger_isolation-Keeps j r e).isolations j was
  | inr fresh ↦ ap (λ (x : Bool × Bool × Status). x.0) (trigger_isolation-flags j r e fresh).0
]

drain_isolations-isolated :
    (answer : String → Response) (k : String) (l : List String) (e : Engine)
    → is_listed k l ≡ true
    → isolated_at k (drain_isolations answer l e) ≡ true
unfolding drain_isolations is_listed
drain_isolations-isolated answer k [] e h = absurd (cc h)
drain_isolations-isolated answer k (j ∷ l) e h =
    let f = trigger_isolation j (answer j) e in
    elim (Bool-cases (str_eq k j)) [
      | inl t ↦
          let same : k ≡ j = (eq_iff k j).0 t in
          (drain_isolations-Keeps answer l f).isolations k (
            subst (λ i. isolated_at i f ≡ true) (sym same)
              (trigger_isolation-isolated j (answer j) e))
      | inr t ↦ drain_isolations-isolated answer k l f (rw t at h)
    ]

-- Draining isolates every machine that was queued and leaves no block.
drain_queues-isolated :
    (block : String → Bool × Containment) (isolate : String → Response) (e : Engine) (k : String)
    → (is_listed k e.isolation_queue || isolated_at k e) ≡ true
    → (isolated_at k (drain_queues block isolate e) ≡ true)
      × ((drain_queues block isolate e).block_queue ≡ [])
      × ((drain_queues block isolate e).isolation_queue ≡ [])
unfolding drain_queues vm_of
drain_queues-isolated block isolate e k h =
    let opened = record e { block_queue = [] } in
    let blocked = drain_blocks block e.block_queue opened in
    let before = drain_blocks-Keeps block e.block_queue opened in
    let taken = record blocked { isolation_queue = [] } in
    let after = drain_isolations-Keeps isolate blocked.isolation_queue taken in
    (
      elim (Bool-cases (is_listed k e.isolation_queue)) [
        | inl queued ↦
            drain_isolations-isolated isolate k blocked.isolation_queue taken
              (ap (is_listed k) before.queue ∙ queued)
        | inr free ↦
            let was : isolated_at k opened ≡ true = rw free at h in
            after.isolations k (before.isolations k was)
      ],
      after.blocks ∙ before.blocks,
      after.queue,
    )

-- The watchdog takes no isolation back and queues no block.
flag_silent-isolated : (now : ℕ) (vm : VmState) → (flag_silent now vm).isolated ≡ vm.isolated
unfolding flag_silent recalculate_score
flag_silent-isolated now vm = refl

queue_isolation-blocks :
    (j : String) (vm : VmState) (e : Engine) → (queue_isolation j vm e).block_queue ≡ e.block_queue
unfolding queue_isolation
queue_isolation-blocks j vm e = ground arith

-- The machine of a place is as isolated as before, and the other places are swept.
swept-isolated :
    (now : ℕ) (k : String) (vm : VmState) (same late : Bool) (rest rest' : Option VmState)
    → (get_or (new_vm k) rest).isolated ≡ (get_or (new_vm k) rest').isolated
    → (get_or
        (new_vm k)
        (if same then some (if late then flag_silent now vm else vm) else rest)).isolated
      ≡ (get_or (new_vm k) (if same then some vm else rest')).isolated
swept-isolated now k vm true true rest rest' h = flag_silent-isolated now vm
swept-isolated now k vm true false rest rest' h = refl
swept-isolated now k vm false late rest rest' h = h

swept-blocks :
    (j : String) (vm : VmState) (late : Bool) (e f : Engine)
    → f.block_queue ≡ e.block_queue
    → (if late then queue_isolation j vm f else e).block_queue ≡ e.block_queue
swept-blocks j vm true e f h = queue_isolation-blocks j vm f ∙ h
swept-blocks j vm false e f h = refl

sweep-isolated :
    (now : ℕ) (k : String) (vms : Dict VmState) (e : Engine)
    → ((get_or (new_vm k) (lookup k (sweep now vms e).0)).isolated
        ≡ (get_or (new_vm k) (lookup k vms)).isolated)
      × ((sweep now vms e).1.block_queue ≡ e.block_queue)
unfolding sweep lookup
sweep-isolated now k [] e = (refl, refl)
sweep-isolated now k ((j, vm) ∷ vms) e =
    let late = is_overdue now vm in
    let vm' = if late then flag_silent now vm else vm in
    let marked = record e { seen_techniques = add_seen "T1562.001" e.seen_techniques } in
    let e' = if late then queue_isolation vm.vm_id vm' marked else e in
    let (rest, blocks) = sweep-isolated now k vms e' in
    (
      swept-isolated now k vm (str_eq j k) late (lookup k (sweep now vms e').0) (lookup k vms) rest,
      blocks ∙ swept-blocks vm.vm_id vm' late e marked refl,
    )

watchdog_sweep-isolated :
    (now : ℕ) (k : String) (e : Engine)
    → (isolated_at k (watchdog_sweep now e) ≡ isolated_at k e)
      × ((watchdog_sweep now e).block_queue ≡ e.block_queue)
unfolding watchdog_sweep vm_of
watchdog_sweep-isolated now k e = sweep-isolated now k e.vms e

is_listed-last : (k : String) (l : List String) → is_listed k (l ++ k ∷ []) ≡ true
unfolding is_listed
is_listed-last k [] = rw ((eq_iff k k).1 refl) refl
is_listed-last k (x ∷ l) = rw (is_listed-last k l) (ground arith)

-- A batch that brings its machine to the threshold has it queued, or it is isolated already.
process_batch-queued :
    (digits : ℕ → String) (now : ℕ) (raw_id : Option String) (events : List RawEvent) (e : Engine)
    → let hit = process_batch digits now raw_id events e in
      let vm_id = safe_vm_id raw_id in
      leb isolation_threshold (vm_of vm_id hit).threat_score ≡ true
      → (is_listed vm_id hit.isolation_queue || isolated_at vm_id hit) ≡ true
process_batch-queued digits now raw_id events e reached =
    let vm_id = safe_vm_id raw_id in
    let hit = process_batch digits now raw_id events e in
    elim (Bool-cases (isolated_at vm_id hit)) [
      | inl was ↦ rw was (ground arith)
      | inr free ↦
          let queued : hit.isolation_queue ≡ e.isolation_queue ++ vm_id ∷ [] =
            process_batch-queue digits now raw_id events e ∙ rw (reached, free) refl in
          rw (queued, is_listed-last vm_id e.isolation_queue) refl
    ]

module _ (block : String → Bool × Containment) (isolate : String → Response) (now : ℕ) where
  -- One round isolates every machine that was queued, keeps the isolations, and leaves no block.
  round-isolated :
      (w : Worker) (k : String)
      → (is_listed k w.engine.isolation_queue || isolated_at k w.engine) ≡ true
      → (isolated_at k (round block isolate now w).engine ≡ true)
        × ((round block isolate now w).engine.block_queue ≡ [])
  unfolding round
  round-isolated w k h =
      let drained = drain_queues block isolate w.engine in
      let (done, empty, _) = drain_queues-isolated block isolate w.engine k h in
      let (same, blocks) = watchdog_sweep-isolated now k drained in
      elim (Bool-cases (ltb (w.last_watchdog + 5000) now)) [
        | inl due ↦ rw (due, round) (same ∙ done, blocks ∙ empty)
        | inr early ↦ rw (early, round) (done, empty)
      ]

  -- A machine whose score has reached the threshold after a batch is isolated once the worker's next
  -- round has run on that state, whatever the hypervisor, the firewall and the failover backend
  -- answer, and no block is left in the queue.
  pub process_batch-isolated :
      (digits : ℕ → String) (earlier : ℕ) (raw_id : Option String) (events : List RawEvent)
      (w : Worker)
      → leb isolation_threshold
          (vm_of
            (safe_vm_id raw_id)
            (process_batch digits earlier raw_id events w.engine)).threat_score
        ≡ true
      → let hit = process_batch digits earlier raw_id events w.engine in
        let after = round block isolate now (record w { engine = hit }) in
        (isolated_at (safe_vm_id raw_id) after.engine ≡ true) × (after.engine.block_queue ≡ [])
  process_batch-isolated digits earlier raw_id events w reached =
      round-isolated (record w { engine = process_batch digits earlier raw_id events w.engine })
        (safe_vm_id raw_id) (process_batch-queued digits earlier raw_id events w.engine reached)
