-- ===== src/Failover/Types.antt =====
-- host_control_plane/failover_orchestrator.py: the state model, from `NodeRole` to the fields of
-- `FailoverOrchestrator`.
use ganglion_oob.Prelude.{ℕ, String, Bool, true, false, Option, List, [], ◌∷◌, ◌++◌, if◌then◌else◌}
use ganglion_oob.Prelude.Dict.{Dict}

pub data NodeRole : Type 0 where
  active standby promoting curing rejoining failed : NodeRole

pub data ServiceState : Type 0 where
  healthy failing_over degraded restored no_standby : ServiceState

-- The stages of a timeline, with the values that their texts show. Wall-clock stamps are left out.
pub data Stage : Type 0 where
  register : String → List String → Stage
  standby_lost failover_begin stage_no_standby promote promote_failed : Stage
  redirect : String → Stage
  failover_complete : ℕ → String → Stage
  validate validate_failed rejoin stage_restored reset : Stage

pub record Entry : Type 0 where
  pub stage : Stage
  pub node : String

pub record Node : Type 0 where
  pub node_id : String
  pub role : NodeRole
  pub is_healthy : Bool
  pub last_event : String

-- Times are ticks of the performance counter.
pub record ServicePair : Type 0 where
  pub service : String
  pub vip : String
  pub nodes : Dict Node
  pub state : ServiceState
  pub active_node : Option String
  pub timeline : List Entry
  pub rto_started : Option ℕ
  pub rto_seconds : Option ℕ

-- A background thread that runs `_cure_and_rejoin(service, vm_id)`.
pub record Cure : Type 0 where
  pub service : String
  pub vm_id : String

-- The orchestrator, with the cure threads that have not begun and those at their health check.
pub record Orchestrator : Type 0 where
  pub services : Dict ServicePair
  pub vm_to_service : Dict String
  pub waiting : List Cure
  pub checking : List Cure

-- What the backend and the clock answer during one failover.
pub record Answers : Type 0 where
  pub promoted : Bool
  pub redirected : Bool
  pub started : ℕ
  pub finished : ℕ

-- A method returns nothing, a dict of the pair, or raises a KeyError.
pub data Reply : Type 0 where
  nothing key_error : Reply
  reported : ServicePair → Reply

abbrev pub new_node : String → NodeRole → Node
new_node vm role = record { node_id = vm; role = role; is_healthy = true; last_event = "" }

-- `ServicePair.log`
abbrev pub log : Stage → String → ServicePair → ServicePair
log stage node p = record p { timeline = p.timeline ++ record { stage = stage; node = node } ∷ [] }

abbrev pub set_role : NodeRole → Node → Node
set_role r n = record n { role = r }

abbrev pub set_role_event : NodeRole → String → Node → Node
set_role_event r e n = record n { role = r; last_event = e }

abbrev pub role_eq : NodeRole → NodeRole → Bool
role_eq active active = true
role_eq standby standby = true
role_eq promoting promoting = true
role_eq curing curing = true
role_eq rejoining rejoining = true
role_eq failed failed = true
role_eq _ _ = false

abbrev pub start_cure : Bool → String → String → List Cure → List Cure
start_cure b service vm l = if b then l ++ record { service = service; vm_id = vm } ∷ [] else l
