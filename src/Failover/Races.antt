-- ===== src/Failover/Races.antt =====
-- Where the cure thread's view of a pair and the pair part company.
use text.Mathlib.TextPositions.{eq_refl}
use mathlib.Core.Option
use ganglion_oob.Prelude.{
  Option, String, ◌≡◌, refl, ap, ◌≢◌, inl, inr, ◌∙◌, sym, some, true, false, Bool-cases,
  if◌then◌else◌, ◌&&◌, str_eq, eq_iff, arith,
}
use ganglion_oob.Prelude.Dict.{Dict, lookup, modify, lookup-modify, modify-modify, All-lookup}
use ganglion_oob.Failover.Types.{
  log, rejoin, active, standby, no_standby, curing, rejoining, set_role, set_role_event, restored,
  Node, ServicePair, Answers, role_eq,
}
use ganglion_oob.Failover.Compromise.{
  no_standby_left, failover_active, standby_compromised, compromise_node,
}
use ganglion_oob.Failover.Cure.{is_impaired, active_is_healthy, validate_node, rejoin_node}
use ganglion_oob.Failover.Nodes.{IsSettled, IsSound}
use ganglion_oob.Failover.Promotion.{NoCandidate, mark, first_standby-none}

-- What `rejoin_node` writes to the node.
abbrev back : Node → Node
back n = record n { role = standby; is_healthy = true; last_event = "rejoined_as_standby" }

rejoin_node-nodes :
    (p : ServicePair) (vm : String) → (rejoin_node p vm).nodes ≡ modify vm back p.nodes
unfolding rejoin_node
rejoin_node-nodes p vm =
    elim (Bool-cases (
      is_impaired p.state
      && active_is_healthy (log rejoin vm (record p { nodes = modify vm back p.nodes })))) [
        | inl e ↦ rw (e, rejoin_node)
        | inr e ↦ rw (e, rejoin_node)
      ]

-- An impaired service whose active node is the one that comes back counts as restored.
rejoin_node-restored :
    (p : ServicePair) (vm : String) (n : Node)
    → is_impaired p.state ≡ true
    → p.active_node ≡ some vm
    → vm ≢ ""
    → lookup vm p.nodes ≡ some n
    → (rejoin_node p vm).state ≡ restored
unfolding rejoin_node active_is_healthy
rejoin_node-restored p vm n impaired is_active named at_vm =
    let found : lookup vm (modify vm back p.nodes) ≡ some (back n) =
      simp lookup-modify (ground (arith, eq_refl vm)) in
    let filled : str_eq vm "" ≡ false = ground (arith, eq_iff vm "") in
    rw (impaired, is_active, filled, found, rejoin_node, active_is_healthy)

-- A node that was compromised again while its health check was running is put back as a healthy
-- standby by the answer that the check had already: the second compromise leaves no trace on it.
pub recompromise_forgotten :
    (pair : ServicePair) (vm : String) (node : Node) (a : Answers)
    → lookup vm pair.nodes ≡ some node
    → node.role ≢ active
    → lookup vm (rejoin_node (compromise_node pair vm node a).0 vm).nodes
      ≡ some (record node { role = standby; is_healthy = true; last_event = "rejoined_as_standby" })
unfolding compromise_node standby_compromised
recompromise_forgotten pair vm node a at_vm passive = elim (Bool-cases (role_eq node.role active)) [
  | inl e ↦ absurd (passive (ground arith))
  | inr e ↦ rw (e, rejoin_node-nodes) (simp lookup-modify (ground (arith, eq_refl vm)))
]

-- The node while its first and only cure is at the health check.
abbrev waiting : Node → Node
waiting n = set_role_event rejoining "validating_clean_state" (set_role curing (mark n))

stranded :
    (pair : ServicePair) (vm : String) (node : Node) (a : Answers)
    → node.role ≡ active
    → NoCandidate pair.nodes
    → let q = validate_node (compromise_node pair vm node a).0 vm in
      (q.state ≡ no_standby)
      × (q.active_node ≡ pair.active_node)
      × (q.nodes ≡ modify vm waiting pair.nodes)
unfolding compromise_node failover_active no_standby_left validate_node
stranded pair vm node a is_active nobody =
    rw (is_active, first_standby-none vm pair.nodes nobody, failover_active)
      (refl, refl, simp modify-modify)

looked_up :
    (q pair : ServicePair) (vm k : String) (node : Node)
    → q.nodes ≡ modify vm waiting pair.nodes
    → lookup vm pair.nodes ≡ some node
    → lookup k (rejoin_node q vm).nodes
      ≡ (if str_eq vm k then some (back (waiting node)) else lookup k pair.nodes)
looked_up q pair vm k node e at_vm = rw (rejoin_node-nodes q vm) (
    ap (λ (d : Dict Node). lookup k (modify vm back d)) e
    ∙ ap (λ (d : Dict Node). lookup k d) (modify-modify vm waiting back pair.nodes)
    ∙ lookup-modify vm k (λ n. back (waiting n)) pair.nodes
    ∙ ap (λ (o : Option Node). if str_eq vm k then o else lookup k pair.nodes)
        (ap (Option.map (λ n. back (waiting n))) at_vm))

-- With no healthy standby, the compromised active node's own cure reports the service as restored
-- with full redundancy, and yet no node of it is ACTIVE.
pub restored_without_active :
    (pair : ServicePair) (vm : String) (node : Node) (a : Answers) (k : String) (n : Node)
    → IsSound pair
    → lookup vm pair.nodes ≡ some node
    → node.role ≡ active
    → vm ≢ ""
    → NoCandidate pair.nodes
    → lookup k (rejoin_node (validate_node (compromise_node pair vm node a).0 vm) vm).nodes ≡ some n
    → ((rejoin_node (validate_node (compromise_node pair vm node a).0 vm) vm).state ≡ restored)
      × (n.role ≢ active)
restored_without_active pair vm node a k n sound at_vm is_active named nobody at_k =
    let q = validate_node (compromise_node pair vm node a).0 vm in
    let (down, still, nodes) = stranded pair vm node a is_active nobody in
    let was : pair.active_node ≡ some vm =
      (All-lookup (IsSettled pair.active_node) vm node pair.nodes sound.entries at_vm).unique
        is_active in
    let at_vm' : lookup vm q.nodes ≡ some (waiting node) =
      rw nodes (simp lookup-modify (ground (arith, eq_refl vm))) in
    let at_k' : (if str_eq vm k then some (back (waiting node)) else lookup k pair.nodes) ≡ some n =
      sym (looked_up q pair vm k node nodes at_vm) ∙ at_k in
    let passive : n.role ≢ active = elim (Bool-cases (str_eq vm k)) [
      | inl same ↦ λ e.
          let rejoined : some (back (waiting node)) ≡ some n = rw same at at_k' in cc (rejoined, e)
      | inr different ↦ λ e.
          let kept : lookup k pair.nodes ≡ some n = rw different at at_k' in
          let named_k : pair.active_node ≡ some k =
            (All-lookup (IsSettled pair.active_node) k n pair.nodes sound.entries kept).unique e in
          cc (named_k, was, different, eq_refl vm)
    ] in
    (
      rejoin_node-restored q vm (waiting node) (ap is_impaired down) (still ∙ was) named at_vm',
      passive,
    )
