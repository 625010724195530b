-- ===== src/Healing/Orchestrator/Caps.antt =====
-- No playbook runs more often than its attempts allow, and what a healing command sets off.
use ganglion_oob.Prelude.{
  ℕ, zero, suc, ◌+◌, ◌≡◌, ◌∙◌, ◌≤◌, ◌<◌, refl, sym, ap, String, none, some, false, List, [], ◌∷◌,
  ◌++◌, leb, str_eq, eq_iff, arith, Bool-cases, Option-cases, inl, inr, All,
}
use ganglion_oob.Prelude.Text.{starts_with}
use ganglion_oob.Prelude.Dict.{Dict, lookup, insert, lookup-insert, All-insert}
use ganglion_oob.Healing.Monitor.{HealthMonitor, ComponentHealth, sweep}
use ganglion_oob.Healing.Breaker.{allow}
use ganglion_oob.Healing.Orchestrator.Budget.{budget-insert}
use ganglion_oob.Healing.Orchestrator.{
  RemediationPlaybook, Healer, Command, unknown_symptom, give_up, run_step, run_steps, run_playbook,
  take_attempt, attempts_of, budget, heal_with, would_recur, act, send, on_command, choose_playbook,
  reconcile_one, reconcile_all, reconcile, mark_recovered, reset_attempts, state_value, escalate,
  set_breaker, breaker,
}

abbrev pub IsWithin : String × RemediationPlaybook → Type 0
IsWithin (k, pb) = pb.attempts ≤ pb.max_attempts

-- No playbook has had more attempts than it may have.
abbrev pub IsCapped : Healer → Type 0
IsCapped s = All IsWithin s.playbooks

abbrev KeepsCap : (Healer → Healer) → Type 0
KeepsCap f = (s : Healer) → IsCapped s → IsCapped (f s)

reset_attempts-All :
    (start : String) (d : Dict RemediationPlaybook)
    → All IsWithin d
    → All IsWithin (reset_attempts start d)
unfolding reset_attempts
reset_attempts-All start [] h = tt
reset_attempts-All start ((k, pb) ∷ d) h = elim (Bool-cases (starts_with start k)) [
  | inl q ↦ rw q (omega arith, reset_attempts-All start d h.1)
  | inr q ↦ rw q (h.0, reset_attempts-All start d h.1)
]

module _ (ten_seconds now : ℕ) where
  run_step-KeepsCap :
      (heal : String → String → Healer → Healer) (key entity : String) (step : String × String)
      → ((k e : String) → KeepsCap (heal k e))
      → KeepsCap (run_step heal key entity step)
  unfolding run_step
  run_step-KeepsCap heal key entity step keeps s h = elim (Bool-cases (would_recur key step)) [
    | inl q ↦ rw (q, run_step) h
    | inr q ↦ elim (Bool-cases (str_eq step.0 "healing")) [
      | inl heals ↦
          rw (q, heals, run_step) (keeps step.1 entity (send entity step (act key entity step s)) h)
      | inr other ↦ rw (q, other, run_step) h
    ]
  ]

  run_steps-KeepsCap :
      (heal : String → String → Healer → Healer) (key entity : String)
      (steps : List (String × String))
      → ((k e : String) → KeepsCap (heal k e))
      → KeepsCap (run_steps heal key entity steps)
  unfolding run_steps
  run_steps-KeepsCap heal key entity [] keeps s h = h
  run_steps-KeepsCap heal key entity (step ∷ steps) keeps s h =
      run_steps-KeepsCap heal key entity steps keeps (run_step heal key entity step s)
        (run_step-KeepsCap heal key entity step keeps s h)

  run_playbook-KeepsCap :
      (fuel : ℕ) (key entity : String) → KeepsCap (run_playbook ten_seconds now fuel key entity)
  unfolding run_playbook give_up
  run_playbook-KeepsCap zero key entity s h = h
  run_playbook-KeepsCap (suc fuel) key entity s h = elim (Option-cases (lookup key s.playbooks)) [
    | inl e ↦ rw (e, run_playbook) h
    | inr (pb, e) ↦ elim (Bool-cases (leb pb.max_attempts pb.attempts)) [
      | inl spent ↦ rw (e, spent, run_playbook) h
      | inr left ↦
          rw (e, left, run_playbook)
            (run_steps-KeepsCap (run_playbook ten_seconds now fuel) key entity pb.steps
              (run_playbook-KeepsCap fuel)
              (record s { playbooks = insert key (take_attempt pb) s.playbooks })
              (All-insert IsWithin key (take_attempt pb) s.playbooks (ground arith) h))
    ]
  ]

  reconcile_one-KeepsCap :
      (name : String) (c : ComponentHealth) → KeepsCap (reconcile_one ten_seconds now name c)
  unfolding reconcile_one
  reconcile_one-KeepsCap name c s h =
      let s' : Healer =
        set_breaker ten_seconds now name (allow now (breaker ten_seconds now name s)).0 s in
      let desired : String = elim (lookup name s.desired_state) [ none ↦ "healthy" | some d ↦ d ] in
      elim (Bool-cases (str_eq (state_value c.state) desired)) [
        | inl fine ↦ rw (fine, reconcile_one) h
        | inr off ↦ elim (Bool-cases (allow now (breaker ten_seconds now name s)).1) [
          | inr refused ↦ rw (off, refused, reconcile_one) h
          | inl allowed ↦ elim (Option-cases (choose_playbook ten_seconds now name c.state s)) [
            | inl nothing ↦ rw (off, allowed, nothing, reconcile_one) h
            | inr (key, found) ↦
                rw (off, allowed, found, reconcile_one)
                  (run_playbook-KeepsCap (suc (budget s'.playbooks)) key name s' h)
          ]
        ]
      ]

  reconcile_all-KeepsCap : (cs : HealthMonitor) → KeepsCap (reconcile_all ten_seconds now cs)
  unfolding reconcile_all
  reconcile_all-KeepsCap [] s h = h
  reconcile_all-KeepsCap ((name, c) ∷ cs) s h =
      reconcile_all-KeepsCap cs (reconcile_one ten_seconds now name c s)
        (reconcile_one-KeepsCap name c s h)

-- What happens to the orchestrator: a tick of its loop, a command from the bus, a recovery.
pub data Event : Type 0 where
  ticked : ℕ → Event
  commanded : ℕ → Command → Event
  recovered : ℕ → String → Event

unfoldable pub handle : ℕ → Event → Healer → Healer
handle ten_seconds (ticked now) s = reconcile ten_seconds now s
handle ten_seconds (commanded now cmd) s = on_command ten_seconds now cmd s
handle ten_seconds (recovered now name) s = mark_recovered ten_seconds now name s

unfoldable pub handle_all : ℕ → List Event → Healer → Healer
handle_all ten_seconds [] s = s
handle_all ten_seconds (e ∷ es) s = handle_all ten_seconds es (handle ten_seconds e s)

handle-KeepsCap : (ten_seconds : ℕ) (e : Event) → KeepsCap (handle ten_seconds e)
unfolding handle reconcile on_command mark_recovered
handle-KeepsCap ten_seconds (ticked now) s h =
    reconcile_all-KeepsCap ten_seconds now (sweep now s.health).0
      (record s { health = (sweep now s.health).0 }) h
handle-KeepsCap ten_seconds (commanded now cmd) s h =
    elim (Bool-cases (str_eq cmd.effector "healing")) [
      | inl heals ↦ rw (heals) (
          run_playbook-KeepsCap ten_seconds now (suc (budget s.playbooks)) cmd.action cmd.entity s
            h)
      | inr other ↦ rw (other) h
    ]
handle-KeepsCap ten_seconds (recovered now name) s h = reset_attempts-All _ s.playbooks h

-- The hard cap: after any ticks, commands and recoveries no playbook has had more attempts than its
-- limit since it was last reset, if that held before.
pub handle_all-IsCapped :
    (ten_seconds : ℕ) (es : List Event) (s : Healer)
    → IsCapped s
    → IsCapped (handle_all ten_seconds es s)
unfolding handle_all
handle_all-IsCapped ten_seconds [] s h = h
handle_all-IsCapped ten_seconds (e ∷ es) s h =
    handle_all-IsCapped ten_seconds es (handle ten_seconds e s) (handle-KeepsCap ten_seconds e s h)

run_step-healing :
    (heal : String → String → Healer → Healer) (key entity action : String) (s : Healer)
    → would_recur key ("healing", action) ≡ false
    → run_step heal key entity ("healing", action) s
      ≡ heal action entity (send entity ("healing", action) (act key entity ("healing", action) s))
unfolding run_step
run_step-healing heal key entity action s plain = rw (plain, run_step) refl

run_steps-one :
    (heal : String → String → Healer → Healer) (key entity : String) (step : String × String)
    (s : Healer)
    → run_steps heal key entity (step ∷ []) s ≡ run_step heal key entity step s
unfolding run_steps
run_steps-one heal key entity step s = refl

module _ (ten_seconds now fuel : ℕ) (key entity : String) where
  runs :
      (pb : RemediationPlaybook) (s : Healer)
      → lookup key s.playbooks ≡ some pb
      → leb pb.max_attempts pb.attempts ≡ false
      → run_playbook ten_seconds now (suc fuel) key entity s
        ≡ run_steps
            (run_playbook ten_seconds now fuel)
            key
            entity
            pb.steps
            (record s { playbooks = insert key (take_attempt pb) s.playbooks })
  unfolding run_playbook
  runs pb s e left = rw (e, left, run_playbook) refl

  run_unknown :
      (s : Healer)
      → lookup key s.playbooks ≡ none
      → run_playbook ten_seconds now (suc fuel) key entity s ≡ escalate entity key unknown_symptom s
  unfolding run_playbook
  run_unknown s e = rw (e, run_playbook) refl

-- A playbook with attempts left whose only step is a command to the effector "healing" brings that
-- command back to the orchestrator as a symptom: if no playbook has the action's name, it is escalated
-- to a human as unknown, on each such attempt, besides being carried out. The one exception is a
-- restart_service under a key that ends in restart, as in the playbook probe_and_restart.
pub cure_escalates :
    (ten_seconds now : ℕ) (key entity action : String) (pb : RemediationPlaybook) (s : Healer)
    → lookup key s.playbooks ≡ some pb
    → pb.steps ≡ ("healing", action) ∷ []
    → pb.attempts < pb.max_attempts
    → would_recur key ("healing", action) ≡ false
    → lookup action (insert key (take_attempt pb) s.playbooks) ≡ none
    → ((heal_with ten_seconds now key entity s).escalations
        ≡ s.escalations ++ record { entity = entity; symptom = action; why = unknown_symptom } ∷ [])
      × ((heal_with ten_seconds now key entity s).actions
          ≡ s.actions
            ++ record {
              symptom = key;
              entity = entity;
              effector = "healing";
              action = action;
              attempt = pb.attempts + 1;
            }
              ∷ [])
cure_escalates ten_seconds now key entity action pb s e steps below plain unknown =
    let left : leb pb.max_attempts pb.attempts ≡ false = ground arith in
    let s' : Healer = record s { playbooks = insert key (take_attempt pb) s.playbooks } in
    let more : budget s.playbooks ≡ suc (budget s'.playbooks) =
      sym (budget-insert ten_seconds now key pb s.playbooks e left) in
    let sent : Healer = send entity ("healing", action) (act key entity ("healing", action) s') in
    let ran : heal_with ten_seconds now key entity s ≡ escalate entity action unknown_symptom sent =
      runs ten_seconds now (budget s.playbooks) key entity pb s e left
      ∙ ap
          (λ (l : List (String × String)).
            run_steps (run_playbook ten_seconds now (budget s.playbooks)) key entity l s')
          steps
      ∙ run_steps-one (run_playbook ten_seconds now (budget s.playbooks)) key entity
          ("healing", action) s'
      ∙ run_step-healing (run_playbook ten_seconds now (budget s.playbooks)) key entity action s'
          plain
      ∙ ap (λ (n : ℕ). run_playbook ten_seconds now n action entity sent) more
      ∙ run_unknown ten_seconds now (budget s'.playbooks) action entity sent unknown in
    let kept : lookup key s'.playbooks ≡ some (take_attempt pb) =
      rw (lookup-insert key key (take_attempt pb) s.playbooks, (eq_iff key key).1 refl) refl in
    let counted : attempts_of key s' ≡ pb.attempts + 1 = rw (kept, attempts_of) refl in
    (
      ap (λ (x : Healer). x.escalations) ran,
      ap (λ (x : Healer). x.actions) ran
          ∙ ap
              (λ (n : ℕ).
                s.actions
                ++ record {
                  symptom = key;
                  entity = entity;
                  effector = "healing";
                  action = action;
                  attempt = n;
                }
                  ∷ [])
              counted,
    )
