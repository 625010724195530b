-- ===== src/Healing/Tests.antt =====
-- A silent sensor and a tripped breaker, and the theorems there. One second is ten ticks.
use ganglion_oob.Prelude.{◌≡◌, ◌≤◌, refl, true, [], ◌∷◌, arith}
use ganglion_oob.Prelude.Dict.{lookup, insert}
use ganglion_oob.Healing.Breaker.{
  CircuitBreaker, new_breaker, opened, half_open, allow, failed_at, handle_all as handle_breaker,
}
use ganglion_oob.Healing.Breaker.Trips.{half_open_forever}
use ganglion_oob.Healing.Monitor.{HealthMonitor, ComponentHealth, new_component}
use ganglion_oob.Healing.Orchestrator.{
  Healer, default_playbooks, playbook, unknown_symptom, run_playbook, heal_with, budget, ends_with,
}
use ganglion_oob.Healing.Orchestrator.Budget.{run_playbook_ends}
use ganglion_oob.Healing.Orchestrator.Caps.{
  ticked, recovered, handle_all, IsCapped, handle_all-IsCapped, cure_escalates,
}

abbrev fresh : CircuitBreaker
fresh = new_breaker 100 "sentry_agent"

abbrev tripped : CircuitBreaker
tripped = record fresh { failures = 3; state = opened; opened_at = 3 }

abbrev probing : CircuitBreaker
probing = record tripped { state = half_open }

half_open_forever_example :
    ((handle_breaker
        (failed_at 104 ∷ failed_at 105 ∷ failed_at 106 ∷ failed_at 107 ∷ [])
        probing).state
      ≡ half_open)
    × ((allow 108 (
          handle_breaker
            (failed_at 104 ∷ failed_at 105 ∷ failed_at 106 ∷ failed_at 107 ∷ [])
            probing)).1
        ≡ true)
half_open_forever_example =
    half_open_forever (failed_at 104 ∷ failed_at 105 ∷ failed_at 106 ∷ failed_at 107 ∷ []) 108
      probing refl

abbrev agent : ComponentHealth
agent = new_component 0 10 "sentry_agent"

abbrev watched : HealthMonitor
watched = ("sentry_agent", agent) ∷ []

abbrev healer : Healer
healer = record {
  health = watched;
  desired_state = [];
  breakers = [];
  playbooks = default_playbooks;
  actions = [];
  escalations = [];
  commands = [];
}

budget_at_start : budget default_playbooks ≡ 15
unfolding budget
budget_at_start = refl

run_playbook_ends_example :
    run_playbook 100 45 16 "sentry_agent:dead" "sentry_agent" healer
    ≡ run_playbook 100 45 99 "sentry_agent:dead" "sentry_agent" healer
run_playbook_ends_example =
    run_playbook_ends 100 45 16 99 "sentry_agent:dead" "sentry_agent" healer
      (omega (arith, budget_at_start)) (omega (arith, budget_at_start))

none_yet : 0 ≤ 3
none_yet = omega arith

handle_all-IsCapped_example :
    IsCapped (handle_all 100 (ticked 45 ∷ ticked 46 ∷ recovered 47 "sentry_agent" ∷ []) healer)
handle_all-IsCapped_example =
    handle_all-IsCapped 100 (ticked 45 ∷ ticked 46 ∷ recovered 47 "sentry_agent" ∷ []) healer
      (none_yet, (none_yet, (none_yet, (none_yet, (none_yet, tt)))))

cure_escalates_example :
    ((heal_with 100 45 "sentry_agent:dead" "sentry_agent" healer).escalations
      ≡ record { entity = "sentry_agent"; symptom = "restart_service"; why = unknown_symptom } ∷ [])
    × ((heal_with 100 45 "sentry_agent:dead" "sentry_agent" healer).actions
        ≡ record {
          symptom = "sentry_agent:dead";
          entity = "sentry_agent";
          effector = "healing";
          action = "restart_service";
          attempt = 1;
        }
          ∷ [])
unfolding lookup insert ends_with
cure_escalates_example =
    cure_escalates 100 45 "sentry_agent:dead" "sentry_agent" "restart_service"
      (playbook (("healing", "restart_service") ∷ [])) healer refl refl (omega arith) refl refl
