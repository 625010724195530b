-- ===== src/Failover/Promotion.antt =====
-- What a compromise does to a pair, on each branch of `handle_compromise` and `_failover_active`.
use text.Mathlib.TextPositions.{eq_refl}
use ganglion_oob.Prelude.{
  String, ◌≡◌, refl, ◌≢◌, inl, inr, ap, ◌∙◌, none, some, [], ◌++◌, ◌∷◌, Bool, true, false, All,
  Bool-cases, ◌&&◌, eq_iff, arith,
}
use ganglion_oob.Prelude.Dict.{Dict, lookup, modify, lookup-modify}
use ganglion_oob.Failover.Types.{
  active, standby, curing, failed, no_standby, Node, ServicePair, Answers, role_eq,
}
use ganglion_oob.Failover.Compromise.{
  first_standby, no_standby_left, promotion_failed, failover_active, standby_compromised,
  compromise_node,
}

-- Whether a node can take over.
abbrev pub is_candidate : Node → Bool
is_candidate n = role_eq n.role standby && n.is_healthy

abbrev pub NoCandidate : Dict Node → Type 0
NoCandidate = All (λ e. is_candidate e.1 ≡ false)

-- What a compromise first writes to the node.
abbrev pub mark : Node → Node
mark n = record n { is_healthy = false; last_event = "compromised+isolated" }

first_standby-append :
    (vm s : String) (sn : Node) (before after : Dict Node)
    → NoCandidate before
    → is_candidate sn ≡ true
    → s ≢ vm
    → first_standby (modify vm mark (before ++ (s, sn) ∷ after)) ≡ some s
unfolding first_standby modify
first_standby-append vm s sn [] after h c ne = ground (arith, eq_iff s vm)
first_standby-append vm s sn ((k, n) ∷ before) after h c ne =
    ground (arith, h.0, first_standby-append vm s sn before after h.1 c ne)

pub first_standby-none :
    (vm : String) (d : Dict Node) → NoCandidate d → first_standby (modify vm mark d) ≡ none
unfolding first_standby modify
first_standby-none vm [] h = refl
first_standby-none vm ((k, n) ∷ d) h = ground (arith, h.0, first_standby-none vm d h.1)

module _ (pair : ServicePair) (vm : String) (node : Node) (a : Answers)
    (at_vm : lookup vm pair.nodes ≡ some node) where
  -- The compromise of a node that is not the active one costs redundancy only: the service's state,
  -- its active node and its recovery time stay, the node is marked unhealthy and is cured by a new
  -- thread, and every other node is left alone.
  pub passive_compromise :
      (j : String)
      → node.role ≢ active
      → j ≢ vm
      → let (p, cure) = compromise_node pair vm node a in
        (p.state ≡ pair.state)
        × (p.active_node ≡ pair.active_node)
        × (p.rto_seconds ≡ pair.rto_seconds)
        × (cure ≡ true)
        × (lookup vm p.nodes ≡ some (record (mark node) { role = curing }))
        × (lookup j p.nodes ≡ lookup j pair.nodes)
  unfolding compromise_node standby_compromised
  passive_compromise j passive ne = elim (Bool-cases (role_eq node.role active)) [
    | inl e ↦ absurd (passive (ground arith))
    | inr e ↦ rw e (
      refl,
      refl,
      refl,
      refl,
      simp lookup-modify (ground (arith, eq_refl vm)),
      simp lookup-modify (ground (arith, eq_iff vm j)),
    )
  ]

  module _ (is_active : node.role ≡ active) where
    -- With no healthy standby the service is down: its state says so, the active node is still the
    -- dead one, which is cured by a new thread, and every other node is left alone.
    pub no_standby_compromise :
        (j : String)
        → NoCandidate pair.nodes
        → j ≢ vm
        → let (p, cure) = compromise_node pair vm node a in
          (p.state ≡ no_standby)
          × (p.active_node ≡ pair.active_node)
          × (cure ≡ true)
          × (lookup vm p.nodes ≡ some (record (mark node) { role = curing }))
          × (lookup j p.nodes ≡ lookup j pair.nodes)
    unfolding compromise_node failover_active no_standby_left
    no_standby_compromise j none_left ne =
        rw (is_active, first_standby-none vm pair.nodes none_left, failover_active)
          (
            refl,
            refl,
            refl,
            simp lookup-modify (ground (arith, eq_refl vm)),
            simp lookup-modify (ground (arith, eq_iff vm j)),
          )

    module _ (s : String) (sn : Node) (before after : Dict Node)
        (split : pair.nodes ≡ before ++ (s, sn) ∷ after) (none_before : NoCandidate before)
        (candidate : is_candidate sn ≡ true) (other : s ≢ vm)
        (at_s : lookup s pair.nodes ≡ some sn) where
      found : first_standby (modify vm mark pair.nodes) ≡ some s
      found =
          ap (λ (d : Dict Node). first_standby (modify vm mark d)) split
          ∙ first_standby-append vm s sn before after none_before candidate other

      -- If the backend cannot promote it, no other standby is tried: the service is down, the
      -- candidate has failed, and no cure is started for the dead node, which keeps its role.
      pub promotion_failure :
          (j : String)
          → a.promoted ≡ false
          → j ≢ vm
          → j ≢ s
          → let (p, cure) = compromise_node pair vm node a in
            (p.state ≡ no_standby)
            × (p.active_node ≡ pair.active_node)
            × (cure ≡ false)
            × (lookup s p.nodes ≡ some (record sn { role = failed; last_event = "promoting" }))
            × (lookup vm p.nodes ≡ some (mark node))
            × (lookup j p.nodes ≡ lookup j pair.nodes)
      unfolding compromise_node failover_active promotion_failed
      promotion_failure j refused ne_vm ne_s =
          rw (is_active, found, refused, failover_active)
            (
              refl,
              refl,
              refl,
              simp lookup-modify (ground (arith, eq_refl s, eq_iff vm s)),
              simp lookup-modify (ground (arith, eq_refl vm, eq_iff s vm)),
              simp lookup-modify (ground (arith, eq_iff vm j, eq_iff s j)),
            )
