-- ===== src/Failover/Cure.antt =====
-- host_control_plane/failover_orchestrator.py: `_cure_and_rejoin` and `reset_service`.
use ganglion_oob.Prelude.{
  String, Bool, true, false, ◌&&◌, Option, none, some, [], ◌∷◌, str_eq, if◌then◌else◌,
}
use ganglion_oob.Prelude.Dict.{Dict, lookup, insert, modify}
use ganglion_oob.Failover.Types.{
  NodeRole, active, standby, rejoining, failed, ServiceState, healthy, degraded, restored,
  no_standby, validate, validate_failed, rejoin, stage_restored, reset, Node, ServicePair, Cure,
  Orchestrator, log, set_role_event,
}

-- The node under validation.
unfoldable pub validate_node : ServicePair → String → ServicePair
validate_node pair vm = log validate vm (record pair {
  nodes = modify vm (set_role_event rejoining "validating_clean_state") pair.nodes;
})

-- The first locked part of `_cure_and_rejoin`, and whether the thread goes on.
unfoldable pub cure_begin : Cure → Orchestrator → Orchestrator × Bool
unfolding validate_node
cure_begin c o = elim (lookup c.service o.services) [
  | none ↦ (o, false)
  | some pair ↦ elim (lookup c.vm_id pair.nodes) [
    | none ↦ (o, false)
    | some node ↦
        (record o { services = insert c.service (validate_node pair c.vm_id) o.services }, true)
  ]
]

-- `pair.state in (DEGRADED, NO_STANDBY)`
abbrev pub is_impaired : ServiceState → Bool
is_impaired degraded = true
is_impaired no_standby = true
is_impaired _ = false

-- `active and active.healthy`, for the node that `active_node` names.
unfoldable pub active_is_healthy : ServicePair → Bool
active_is_healthy p = elim p.active_node [
  | none ↦ false
  | some k ↦
      if str_eq k ""
      then false
      else elim (lookup k p.nodes) [ none ↦ false | some n ↦ n.is_healthy ]
]

abbrev pub name_or_empty : Option String → String
name_or_empty none = ""
name_or_empty (some s) = s

unfoldable pub rejoin_node : ServicePair → String → ServicePair
unfolding active_is_healthy
rejoin_node pair vm =
    let p = log rejoin vm (record pair {
      nodes =
          modify vm
            (λ n. record n {
              role = standby;
              is_healthy = true;
              last_event = "rejoined_as_standby";
            })
            pair.nodes;
    }) in
    if is_impaired p.state && active_is_healthy p
    then log stage_restored (name_or_empty p.active_node) (record p { state = restored })
    else p

unfoldable pub reject_node : ServicePair → String → ServicePair
reject_node pair vm =
    log validate_failed vm
      (record pair { nodes = modify vm (set_role_event failed "validation_failed") pair.nodes })

-- The second locked part, with the answer of the health check. A KeyError ends the thread.
unfoldable pub cure_finish : Cure → Bool → Orchestrator → Orchestrator
cure_finish c ok o = elim (lookup c.service o.services) [
  | none ↦ o
  | some pair ↦ elim (lookup c.vm_id pair.nodes) [
    | none ↦ o
    | some node ↦ record o {
      services =
          insert c.service (if ok then rejoin_node pair c.vm_id else reject_node pair c.vm_id)
            o.services;
    }
  ]
]

abbrev pub clean : NodeRole → Node → Node
clean r n = record n { role = r; is_healthy = true; last_event = "reset" }

-- The loop of `reset_service`: the first node becomes the active one.
unfoldable pub reset_standbys : Dict Node → Dict Node
reset_standbys [] = []
reset_standbys ((k, n) ∷ d) = (k, clean standby n) ∷ reset_standbys d

unfoldable pub reset_nodes : Dict Node → Dict Node
reset_nodes [] = []
reset_nodes ((k, n) ∷ d) = (k, clean active n) ∷ reset_standbys d

abbrev pub first_id : Dict Node → Option String → Option String
first_id [] current = current
first_id ((k, n) ∷ d) current = some n.node_id

unfoldable pub reset_pair : ServicePair → ServicePair
reset_pair pair =
    let p = record pair {
      nodes = reset_nodes pair.nodes;
      active_node = first_id pair.nodes pair.active_node;
      state = healthy;
      rto_seconds = none;
    } in
    log reset (name_or_empty p.active_node) p

unfoldable pub reset_service : String → Orchestrator → Orchestrator
reset_service service o = elim (lookup service o.services) [
  | none ↦ o
  | some pair ↦ record o { services = insert service (reset_pair pair) o.services }
]
