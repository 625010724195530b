-- ===== src/Failover/Compromise.antt =====
-- host_control_plane/failover_orchestrator.py: `register_service`, `handle_compromise` and
-- `_failover_active`.
use ganglion_oob.Prelude.{
  ◌-◌, String, Bool, true, false, ◌&&◌, Option, none, some, List, [], ◌∷◌, str_eq, if◌then◌else◌,
}
use ganglion_oob.Prelude.Dict.{Dict, lookup, insert, modify}
use ganglion_oob.Failover.Types.{
  active, standby, promoting, curing, failed, healthy, failing_over, degraded, no_standby, register,
  standby_lost, failover_begin, stage_no_standby, promote, promote_failed, redirect,
  failover_complete, Node, ServicePair, Orchestrator, Answers, Reply, nothing, key_error, reported,
  new_node, log, set_role, set_role_event, role_eq, start_cure,
}

-- `for s in standby_vms: pair.nodes[s] = Node(s, STANDBY)`
unfoldable pub add_standbys : List String → Dict Node → Dict Node
add_standbys [] d = d
add_standbys (s ∷ l) d = add_standbys l (insert s (new_node s standby) d)

-- `for s in standby_vms: self._vm_to_service[s] = service`
unfoldable pub map_vms : List String → String → Dict String → Dict String
map_vms [] service d = d
map_vms (s ∷ l) service d = map_vms l service (insert s service d)

unfoldable pub register_service :
    String → String → String → List String → Orchestrator → Orchestrator
register_service service vip active_vm standby_vms o =
    let pair : ServicePair = record {
      service = service;
      vip = vip;
      nodes = add_standbys standby_vms ((active_vm, new_node active_vm active) ∷ []);
      state = healthy;
      active_node = some active_vm;
      timeline = record { stage = register vip standby_vms; node = active_vm } ∷ [];
      rto_started = none;
      rto_seconds = none;
    } in
    record o {
      services = insert service pair o.services;
      vm_to_service = map_vms standby_vms service (insert active_vm service o.vm_to_service);
    }

-- `next(n for n in nodes.values() if n.role == STANDBY and n.healthy)`; the dict's key stands for
-- the node object, which is changed in place.
unfoldable pub first_standby : Dict Node → Option String
first_standby [] = none
first_standby ((k, n) ∷ d) =
    if role_eq n.role standby && n.is_healthy then some k else first_standby d

-- `_failover_active` with no healthy standby
unfoldable pub no_standby_left : ServicePair → String → ServicePair
no_standby_left p dead =
    let q = log stage_no_standby dead (record p { state = no_standby }) in
    record q { nodes = modify dead (set_role curing) q.nodes }

unfoldable pub promotion_failed : ServicePair → String → ServicePair
promotion_failed p s =
    let q = log promote_failed s p in
    record q { nodes = modify s (set_role failed) q.nodes; state = no_standby }

unfoldable pub promotion_done : ServicePair → String → String → Answers → ServicePair
promotion_done p s dead a =
    let q = log (redirect p.vip) s p in
    let rto = a.finished - a.started in
    log (failover_complete rto dead) s (record q {
      nodes = modify dead (set_role curing) (modify s (set_role_event active "active") q.nodes);
      active_node = some s;
      rto_seconds = some rto;
      state = degraded;
    })

-- `_failover_active`: the pair, and whether a cure of the dead node is started. The answer of
-- `redirect_traffic` is not read.
unfoldable pub failover_active : ServicePair → String → Answers → ServicePair × Bool
failover_active pair dead a =
    let p =
      log failover_begin dead
        (record pair { state = failing_over; rto_started = some a.started }) in
    elim (first_standby p.nodes) [
      | none ↦ (no_standby_left p dead, true)
      | some s ↦
          let q =
            log promote s
              (record p { nodes = modify s (set_role_event promoting "promoting") p.nodes }) in
          if a.promoted then (promotion_done q s dead a, true) else (promotion_failed q s, false)
    ]

-- The standby branch of `handle_compromise`
unfoldable pub standby_compromised : ServicePair → String → ServicePair
standby_compromised p vm =
    log standby_lost vm (record p { nodes = modify vm (set_role curing) p.nodes })

-- Marks the node, then fails over if it is the active one.
unfoldable pub compromise_node : ServicePair → String → Node → Answers → ServicePair × Bool
compromise_node pair vm node a =
    let p = record pair {
      nodes =
          modify vm (λ n. record n { is_healthy = false; last_event = "compromised+isolated" })
            pair.nodes;
    } in
    if role_eq node.role active then failover_active p vm a else (standby_compromised p vm, true)

-- An empty service name counts as none.
unfoldable pub handle_compromise : String → Answers → Orchestrator → Orchestrator × Reply
handle_compromise vm a o = elim (lookup vm o.vm_to_service) [
  | none ↦ (o, nothing)
  | some service ↦ if str_eq service "" then (o, nothing) else elim (lookup service o.services) [
    | none ↦ (o, key_error)
    | some pair ↦ elim (lookup vm pair.nodes) [
      | none ↦ (o, nothing)
      | some node ↦
          let (p, cure) = compromise_node pair vm node a in
          (
            record o {
              services = insert service p o.services;
              waiting = start_cure cure service vm o.waiting;
            },
            reported p,
          )
    ]
  ]
]
