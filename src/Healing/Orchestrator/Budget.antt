-- ===== src/Healing/Orchestrator/Budget.antt =====
-- The recursion of the playbooks ends: the attempts that are left bound it.
use ganglion_oob.Prelude.{
  ℕ, zero, suc, ◌≡◌, ◌∙◌, ◌≤◌, ◌<◌, refl, ap, String, some, false, List, [], ◌∷◌, leb, str_eq,
  arith, Bool-cases, Option-cases, inl, inr,
}
use ganglion_oob.Prelude.Dict.{Dict, lookup, insert}
use ganglion_oob.Healing.Orchestrator.{
  RemediationPlaybook, Healer, give_up, run_step, run_steps, run_playbook, take_attempt, budget,
  would_recur, act, send,
}

module _ (ten_seconds now : ℕ) where
  pub budget-insert :
      (key : String) (pb : RemediationPlaybook) (d : Dict RemediationPlaybook)
      → lookup key d ≡ some pb
      → leb pb.max_attempts pb.attempts ≡ false
      → suc (budget (insert key (take_attempt pb) d)) ≡ budget d
  unfolding budget lookup insert
  budget-insert key pb [] e left = absurd (cc e)
  budget-insert key pb ((j, pb') ∷ d) e left = elim (Bool-cases (str_eq j key)) [
    | inl same ↦
        let found : some pb' ≡ some pb = rw same at e in
        let this : pb' ≡ pb = cc found in rw (same, this) (ground arith)
    | inr other ↦
        let later : lookup key d ≡ some pb = rw other at e in
        rw other (omega (arith, budget-insert key pb d later left))
  ]

  abbrev attempts_left : Healer → ℕ
  attempts_left s = budget s.playbooks

  -- A way to heal that gives no attempt back.
  abbrev IsSpending : (String → String → Healer → Healer) → Type 0
  IsSpending heal = (k e : String) (s : Healer) → attempts_left (heal k e s) ≤ attempts_left s

  run_step-IsSpending :
      (heal : String → String → Healer → Healer) (key entity : String) (step : String × String)
      (s : Healer)
      → IsSpending heal
      → attempts_left (run_step heal key entity step s) ≤ attempts_left s
  unfolding run_step
  run_step-IsSpending heal key entity step s spends = elim (Bool-cases (would_recur key step)) [
    | inl q ↦ rw (q, run_step) (omega arith)
    | inr q ↦ elim (Bool-cases (str_eq step.0 "healing")) [
      | inl heals ↦
          rw (q, heals, run_step) (spends step.1 entity (send entity step (act key entity step s)))
      | inr other ↦ rw (q, other, run_step) (omega arith)
    ]
  ]

  run_steps-IsSpending :
      (heal : String → String → Healer → Healer) (key entity : String)
      (steps : List (String × String)) (s : Healer)
      → IsSpending heal
      → attempts_left (run_steps heal key entity steps s) ≤ attempts_left s
  unfolding run_steps
  run_steps-IsSpending heal key entity [] s spends = omega arith
  run_steps-IsSpending heal key entity (step ∷ steps) s spends = omega (
    arith,
    run_step-IsSpending heal key entity step s spends,
    run_steps-IsSpending heal key entity steps (run_step heal key entity step s) spends,
  )

  run_playbook-IsSpending : (fuel : ℕ) → IsSpending (run_playbook ten_seconds now fuel)
  unfolding run_playbook give_up
  run_playbook-IsSpending zero key entity s = omega arith
  run_playbook-IsSpending (suc fuel) key entity s = elim (Option-cases (lookup key s.playbooks)) [
    | inl e ↦ rw (e, run_playbook) (omega arith)
    | inr (pb, e) ↦ elim (Bool-cases (leb pb.max_attempts pb.attempts)) [
      | inl spent ↦ rw (e, spent, run_playbook) (omega arith)
      | inr left ↦
          rw (e, left, run_playbook)
            (omega (
              arith,
              budget-insert key pb s.playbooks e left,
              run_steps-IsSpending (run_playbook ten_seconds now fuel) key entity pb.steps
                  (record s { playbooks = insert key (take_attempt pb) s.playbooks })
                  (run_playbook-IsSpending fuel),
            ))
    ]
  ]

  -- Two ways to heal that agree while no more than `n` attempts are left.
  abbrev AgreeTo :
      ℕ → (String → String → Healer → Healer) → (String → String → Healer → Healer) → Type 0
  AgreeTo n heal heal' =
      (k e : String) (s : Healer) → attempts_left s ≤ n → heal k e s ≡ heal' k e s

  run_step-AgreeTo :
      (bound : ℕ) (heal heal' : String → String → Healer → Healer) (key entity : String)
      (step : String × String) (s : Healer)
      → AgreeTo bound heal heal'
      → attempts_left s ≤ bound
      → run_step heal key entity step s ≡ run_step heal' key entity step s
  unfolding run_step
  run_step-AgreeTo bound heal heal' key entity step s agree le =
      elim (Bool-cases (would_recur key step)) [
        | inl q ↦ rw (q, run_step) refl
        | inr q ↦ elim (Bool-cases (str_eq step.0 "healing")) [
          | inl heals ↦
              rw (q, heals, run_step)
                (agree step.1 entity (send entity step (act key entity step s)) le)
          | inr other ↦ rw (q, other, run_step) refl
        ]
      ]

  run_steps-AgreeTo :
      (bound : ℕ) (heal heal' : String → String → Healer → Healer) (key entity : String)
      (steps : List (String × String)) (s : Healer)
      → AgreeTo bound heal heal'
      → IsSpending heal
      → attempts_left s ≤ bound
      → run_steps heal key entity steps s ≡ run_steps heal' key entity steps s
  unfolding run_steps
  run_steps-AgreeTo bound heal heal' key entity [] s agree spends le = refl
  run_steps-AgreeTo bound heal heal' key entity (step ∷ steps) s agree spends le =
      run_steps-AgreeTo bound heal heal' key entity steps (run_step heal key entity step s) agree
        spends (omega (arith, le, run_step-IsSpending heal key entity step s spends))
      ∙ ap (λ (x : Healer). run_steps heal' key entity steps x)
          (run_step-AgreeTo bound heal heal' key entity step s agree le)

  -- Termination: more fuel than there are attempts left makes no difference, so the playbook's
  -- recursion over the bus ends, whatever the playbooks are, and runs as the code runs it.
  pub run_playbook_ends :
      (fuel fuel' : ℕ) (key entity : String) (s : Healer)
      → budget s.playbooks < fuel
      → budget s.playbooks < fuel'
      → run_playbook ten_seconds now fuel key entity s
        ≡ run_playbook ten_seconds now fuel' key entity s
  unfolding run_playbook
  run_playbook_ends zero fuel' key entity s lt lt' = absurd (omega arith)
  run_playbook_ends (suc fuel) zero key entity s lt lt' = absurd (omega arith)
  run_playbook_ends (suc fuel) (suc fuel') key entity s lt lt' =
      elim (Option-cases (lookup key s.playbooks)) [
        | inl e ↦ rw (e, run_playbook) refl
        | inr (pb, e) ↦ elim (Bool-cases (leb pb.max_attempts pb.attempts)) [
          | inl spent ↦ rw (e, spent, run_playbook) refl
          | inr left ↦
              let s' : Healer = record s { playbooks = insert key (take_attempt pb) s.playbooks } in
              let spent_one = budget-insert key pb s.playbooks e left in
              rw (e, left, run_playbook)
                (run_steps-AgreeTo (attempts_left s') (run_playbook ten_seconds now fuel)
                  (run_playbook ten_seconds now fuel') key entity pb.steps s'
                  (λ k en t le.
                    run_playbook_ends fuel fuel' k en t (omega (arith, spent_one))
                      (omega (arith, spent_one)))
                  (run_playbook-IsSpending fuel) (omega arith))
        ]
      ]
