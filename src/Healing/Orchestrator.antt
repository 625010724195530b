-- ===== src/Healing/Orchestrator.antt =====
-- self_healing/healing_orchestrator.py: `HealingOrchestrator`. A command of the effector "healing"
-- comes back to the orchestrator over the bus while the playbook that sent it runs; this recursion
-- has fuel, and each call of it uses up an attempt of a playbook.
pub mod Budget
pub mod Caps
use Prim.Native.Char.{code}
use Prim.Native.String.{◌++◌ as ◌+++◌}
use ganglion_oob.Prelude.{
  ℕ, zero, suc, ◌+◌, ◌-◌, String, Option, none, some, Bool, true, false, ◌&&◌, ◌||◌, not, List, [],
  ◌∷◌, ◌++◌, leb, ◌==◌, if◌then◌else◌, str_eq,
}
use ganglion_oob.Prelude.Text.{starts_with}
use ganglion_oob.Prelude.Dict.{Dict, lookup, insert}
use ganglion_oob.Healing.Breaker.{
  CircuitBreaker, new_breaker, record_failure, record_success, allow,
}
use ganglion_oob.Healing.Monitor.{
  HealthState, healthy, degraded, unhealthy, dead, ComponentHealth, HealthMonitor, sweep,
}

pub record RemediationPlaybook : Type 0 where
  pub steps : List (String × String)
  pub max_attempts : ℕ
  pub attempts : ℕ

-- An action without its time and its random backoff.
pub record Action : Type 0 where
  pub symptom : String
  pub entity : String
  pub effector : String
  pub action : String
  pub attempt : ℕ

pub data Why : Type 0 where
  no_playbook unknown_symptom exceeded_attempts : Why

pub record Escalation : Type 0 where
  pub entity : String
  pub symptom : String
  pub why : Why

pub record Command : Type 0 where
  pub effector : String
  pub action : String
  pub entity : String

pub record Healer : Type 0 where
  pub health : HealthMonitor
  pub desired_state : Dict String
  pub breakers : Dict CircuitBreaker
  pub playbooks : Dict RemediationPlaybook
  pub actions : List Action
  pub escalations : List Escalation
  -- The commands that went over the bus.
  pub commands : List Command

abbrev pub playbook : List (String × String) → RemediationPlaybook
playbook steps = record { steps = steps; max_attempts = 3; attempts = 0 }

-- `DEFAULT_PLAYBOOKS`
abbrev pub default_playbooks : Dict RemediationPlaybook
default_playbooks =
    (
      "control_center:dead",
      playbook (("healing", "restart_service") ∷ ("failover", "promote_standby") ∷ []),
    )
    ∷ ("sentry_agent:dead", playbook (("healing", "restart_service") ∷ []))
    ∷ ("secure_channel:degraded", playbook (("healing", "rekey_channel") ∷ []))
    ∷ ("queue:degraded", playbook (("healing", "drain_queue") ∷ []))
    ∷ ("probe_and_restart", playbook (("healing", "restart_service") ∷ []))
    ∷ []

-- `_escalate`
abbrev pub escalate : String → String → Why → Healer → Healer
escalate entity symptom why s = record s {
  escalations = s.escalations ++ record { entity = entity; symptom = symptom; why = why } ∷ [];
}

-- `s.endswith(suffix)`
unfoldable pub ends_with : String → String → Bool
ends_with suffix String.[] = str_eq "" suffix
ends_with suffix (String.◌∷◌ c s) = str_eq (String.◌∷◌ c s) suffix || ends_with suffix s

-- The playbooks of the keys that start with a text, with all their attempts again.
unfoldable pub reset_attempts : String → Dict RemediationPlaybook → Dict RemediationPlaybook
reset_attempts start [] = []
reset_attempts start ((k, pb) ∷ d) =
    (k, if starts_with start k then record pb { attempts = 0 } else pb) ∷ reset_attempts start d

abbrev pub state_value : HealthState → String
state_value healthy = "healthy"
state_value degraded = "degraded"
state_value unhealthy = "unhealthy"
state_value dead = "dead"

abbrev pub is_down : HealthState → Bool
is_down unhealthy = true
is_down dead = true
is_down _ = false

abbrev pub take_attempt : RemediationPlaybook → RemediationPlaybook
take_attempt pb = record pb { attempts = pb.attempts + 1 }

-- The attempts that the playbooks have left, which the recursion uses up.
unfoldable pub budget : Dict RemediationPlaybook → ℕ
budget [] = 0
budget ((k, pb) ∷ d) = pb.max_attempts - pb.attempts + budget d

-- `pb.attempts`, of the playbook as it is by now
abbrev pub attempts_of : String → Healer → ℕ
attempts_of key s = elim (lookup key s.playbooks) [ none ↦ 0 | some pb ↦ pb.attempts ]

-- The record of a step, and the command that it sends.
abbrev pub act : String → String → String × String → Healer → Healer
act key entity (effector, action) s = record s {
  actions =
      s.actions
      ++ record {
        symptom = key;
        entity = entity;
        effector = effector;
        action = action;
        attempt = attempts_of key s;
      }
        ∷ [];
}

abbrev pub send : String → String × String → Healer → Healer
send entity (effector, action) s = record s {
  commands = s.commands ++ record { effector = effector; action = action; entity = entity } ∷ [];
}

-- The step that sends no command, so that it does not recur.
abbrev pub would_recur : String → String × String → Bool
would_recur key (effector, action) =
    str_eq effector "healing" && str_eq action "restart_service" && ends_with "restart" key

-- One step; `heal` is what a healing command sets off.
unfoldable pub run_step :
    (String → String → Healer → Healer) → String → String → String × String → Healer → Healer
run_step heal key entity step s =
    let sent = send entity step (act key entity step s) in
    elim (would_recur key step) [
      | true ↦ act key entity step s
      | false ↦ elim (str_eq step.0 "healing") [ true ↦ heal step.1 entity sent | false ↦ sent ]
    ]

unfoldable pub run_steps :
    (String → String → Healer → Healer) → String → String → List (String × String) → Healer → Healer
run_steps heal key entity [] s = s
run_steps heal key entity (step ∷ steps) s =
    run_steps heal key entity steps (run_step heal key entity step s)

module _ (ten_seconds now : ℕ) where
  -- `breaker`, which creates a breaker that is missing.
  abbrev pub breaker : String → Healer → CircuitBreaker
  breaker name s = elim (lookup name s.breakers) [
    | none ↦ new_breaker ten_seconds name
    | some b ↦ b
  ]

  abbrev pub set_breaker : String → CircuitBreaker → Healer → Healer
  set_breaker name b s = record s { breakers = insert name b s.breakers }

  -- A playbook that has had all its attempts.
  unfoldable pub give_up : String → String → Healer → Healer
  give_up key entity s =
      let s' = escalate entity key exceeded_attempts s in
      set_breaker entity (record_failure now (breaker entity s')) s'

  -- `_run_playbook`
  unfoldable pub run_playbook : ℕ → String → String → Healer → Healer
  run_playbook zero key entity s = s
  run_playbook (suc fuel) key entity s = elim (lookup key s.playbooks) [
    | none ↦ escalate entity key unknown_symptom s
    | some pb ↦ elim (leb pb.max_attempts pb.attempts) [
      | true ↦ give_up key entity s
      | false ↦
          run_steps (run_playbook fuel) key entity pb.steps
            (record s { playbooks = insert key (take_attempt pb) s.playbooks })
    ]
  ]

  abbrev pub heal_with : String → String → Healer → Healer
  heal_with key entity s = run_playbook (suc (budget s.playbooks)) key entity s

  -- `_on_command`
  unfoldable pub on_command : Command → Healer → Healer
  on_command cmd s = if str_eq cmd.effector "healing" then heal_with cmd.action cmd.entity s else s

  abbrev pub has_playbook : String → Healer → Bool
  has_playbook key s = elim (lookup key s.playbooks) [ none ↦ false | some pb ↦ true ]

  -- The playbook for a component in a state.
  unfoldable pub choose_playbook : String → HealthState → Healer → Option String
  choose_playbook name state s =
      if has_playbook (name +++ ":" +++ state_value state) s
      then some (name +++ ":" +++ state_value state)
      else if is_down state && has_playbook (name +++ ":dead") s
      then some (name +++ ":dead")
      else none

  -- The body of the loop of `reconcile`.
  unfoldable pub reconcile_one : String → ComponentHealth → Healer → Healer
  reconcile_one name c s =
      let desired : String = elim (lookup name s.desired_state) [ none ↦ "healthy" | some d ↦ d ] in
      let asked = allow now (breaker name s) in
      let s' = set_breaker name asked.0 s in
      if str_eq (state_value c.state) desired
      then set_breaker name (record_success (breaker name s)) s
      else if not asked.1
      then s'
      else elim (choose_playbook name c.state s) [
        | none ↦ escalate name (state_value c.state) no_playbook s'
        | some key ↦ heal_with key name s'
      ]

  unfoldable pub reconcile_all : HealthMonitor → Healer → Healer
  reconcile_all [] s = s
  reconcile_all ((name, c) ∷ cs) s = reconcile_all cs (reconcile_one name c s)

  -- `reconcile`
  unfoldable pub reconcile : Healer → Healer
  reconcile s =
      let health' = (sweep now s.health).0 in reconcile_all health' (record s { health = health' })

  unfoldable pub mark_recovered : String → Healer → Healer
  mark_recovered name s =
      let s' = record s { playbooks = reset_attempts (name +++ ":") s.playbooks } in
      set_breaker name (record_success (breaker name s')) s'
