-- ===== src/Failover/Invariant.antt =====
-- What holds of every pair between two steps, however methods and cure threads interleave.
use ganglion_oob.Prelude.{
  String, ◌≡◌, refl, ap, inl, inr, true, false, Option, some, List, [], ◌∷◌, All, Bool-cases,
  str_eq, Option-cases, ◌&&◌,
}
use ganglion_oob.Prelude.Dict.{Dict, lookup, insert, modify, All-insert, All-lookup}
use ganglion_oob.Failover.Types.{
  active, standby, curing, Node, ServicePair, Orchestrator, Answers, role_eq, new_node, log, rejoin,
}
use ganglion_oob.Failover.Compromise.{
  add_standbys, register_service, first_standby, no_standby_left, promotion_failed, promotion_done,
  failover_active, standby_compromised, compromise_node, handle_compromise,
}
use ganglion_oob.Failover.Cure.{
  active_is_healthy, rejoin_node, reject_node, reset_standbys, reset_nodes, reset_pair, is_impaired,
  first_id,
}
use ganglion_oob.Failover.Nodes.{
  IsSettled, IsSound, modify-IsSettled, role_eq-eq, passive, begin_promotion, give_up, take_over,
  retire,
}

add_standbys-IsSettled :
    (act : Option String) (l : List String) (d : Dict Node)
    → All (IsSettled act) d
    → All (IsSettled act) (add_standbys l d)
unfolding add_standbys
add_standbys-IsSettled act [] d h = h
add_standbys-IsSettled act (s ∷ l) d h =
    add_standbys-IsSettled act l (insert s (new_node s standby) d) (
      All-insert (IsSettled act) s (new_node s standby) d
        (record { named = refl; unique = λ e. cc; no_promotion = λ e. cc }) h)

failover_active-IsSound :
    (p : ServicePair) (dead : String) (a : Answers)
    → p.active_node ≡ some dead
    → All (IsSettled p.active_node) p.nodes
    → IsSound (failover_active p dead a).0
unfolding failover_active no_standby_left promotion_failed promotion_done
failover_active-IsSound p dead a was h = elim (Option-cases (first_standby p.nodes)) [
  | inl nobody ↦
      rw (nobody, failover_active)
        (record {
          settled = λ e. cc;
          entries =
              modify-IsSettled _ dead _ p.nodes (λ n. passive _ dead curing n (λ e. cc) (λ e. cc))
                h;
        })
  | inr (s, found) ↦ elim (Bool-cases a.promoted) [
    | inl yes_promoted ↦
        rw (found, yes_promoted, failover_active)
          (record {
            settled = λ e. cc;
            entries =
                retire p.active_node s dead _ was
                  (take_over p.active_node s _ (begin_promotion p.active_node s p.nodes h));
          })
    | inr not_promoted ↦
        rw (found, not_promoted, failover_active)
          (record {
            settled = λ e. cc;
            entries = give_up p.active_node s _ (begin_promotion p.active_node s p.nodes h);
          })
  ]
]

compromise_node-IsSound :
    (p : ServicePair) (vm : String) (n : Node) (a : Answers)
    → lookup vm p.nodes ≡ some n
    → IsSound p
    → IsSound (compromise_node p vm n a).0
unfolding compromise_node standby_compromised
compromise_node-IsSound p vm n a found h =
    let mark : Node → Node =
      λ n. record n { is_healthy = false; last_event = "compromised+isolated" } in
    let marked : All (IsSettled p.active_node) (modify vm mark p.nodes) =
      modify-IsSettled _ vm mark p.nodes
        (λ m s. record { named = s.named; unique = s.unique; no_promotion = s.no_promotion })
        h.entries in
    elim (Bool-cases (role_eq n.role active)) [
      | inl is_active ↦ rw is_active (
          failover_active-IsSound (record p { nodes = modify vm mark p.nodes }) vm a
            ((All-lookup (IsSettled p.active_node) vm n p.nodes h.entries found).unique
              (role_eq-eq n.role active is_active))
            marked)
      | inr is_passive ↦ rw is_passive (record {
        settled = h.settled;
        entries = modify-IsSettled _ vm _ _ (λ m. passive _ vm curing m (λ e. cc) (λ e. cc)) marked;
      })
    ]

pub rejoin_node-IsSound : (p : ServicePair) (vm : String) → IsSound p → IsSound (rejoin_node p vm)
unfolding rejoin_node
rejoin_node-IsSound p vm h =
    let back : Node → Node =
      λ n. record n { role = standby; is_healthy = true; last_event = "rejoined_as_standby" } in
    let kept : All (IsSettled p.active_node) (modify vm back p.nodes) =
      modify-IsSettled _ vm back p.nodes
        (λ m s. record { named = s.named; unique = λ e. cc; no_promotion = λ e. cc }) h.entries in
    let q = record p { nodes = modify vm back p.nodes } in
    elim (Bool-cases (is_impaired p.state && active_is_healthy (log rejoin vm q))) [
      | inl full ↦ rw (full, rejoin_node) (record { settled = λ e. cc; entries = kept })
      | inr partly ↦ rw (partly, rejoin_node) (record { settled = h.settled; entries = kept })
    ]

pub reject_node-IsSound : (p : ServicePair) (vm : String) → IsSound p → IsSound (reject_node p vm)
unfolding reject_node
reject_node-IsSound p vm h = record {
  settled = h.settled;
  entries =
      modify-IsSettled _ vm _ p.nodes
        (λ m s. record { named = s.named; unique = λ e. cc; no_promotion = λ e. cc }) h.entries;
}

reset_standbys-IsSettled :
    (act act' : Option String) (d : Dict Node)
    → All (IsSettled act) d
    → All (IsSettled act') (reset_standbys d)
unfolding reset_standbys
reset_standbys-IsSettled act act' [] h = tt
reset_standbys-IsSettled act act' ((k, n) ∷ d) h = (
  record { named = h.0.named; unique = λ e. cc; no_promotion = λ e. cc },
  reset_standbys-IsSettled act act' d h.1,
)

reset_nodes-IsSettled :
    (act current : Option String) (d : Dict Node)
    → All (IsSettled act) d
    → All (IsSettled (first_id d current)) (reset_nodes d)
unfolding reset_nodes
reset_nodes-IsSettled act current [] h = tt
reset_nodes-IsSettled act current ((k, n) ∷ d) h = (
  record { named = h.0.named; unique = λ e. ap some h.0.named; no_promotion = λ e. cc },
  reset_standbys-IsSettled act (some n.node_id) d h.1,
)

pub reset_pair-IsSound : (p : ServicePair) → IsSound p → IsSound (reset_pair p)
unfolding reset_pair
reset_pair-IsSound p h = record {
  settled = λ e. cc;
  entries = reset_nodes-IsSettled p.active_node p.active_node p.nodes h.entries;
}

-- Every registered pair is sound.
abbrev pub AllSound : Orchestrator → Type 0
AllSound o = All (λ e. IsSound e.1) o.services

pub IsSound-pair :
    (o : Orchestrator) (service : String) (p : ServicePair)
    → AllSound o
    → lookup service o.services ≡ some p
    → IsSound p
IsSound-pair o service p h e = All-lookup (λ x. IsSound x.1) service p o.services h e

pub store :
    (o : Orchestrator) (service : String) (p : ServicePair)
    → AllSound o
    → IsSound p
    → All (λ e. IsSound e.1) (insert service p o.services)
store o service p h s = All-insert (λ x. IsSound x.1) service p o.services s h

pub register_service-AllSound :
    (service vip vm : String) (l : List String) (o : Orchestrator)
    → AllSound o
    → AllSound (register_service service vip vm l o)
unfolding register_service
register_service-AllSound service vip vm l o h = store o service _ h (record {
  settled = λ e. cc;
  entries =
      add_standbys-IsSettled (some vm) l _
        (record { named = refl; unique = λ e. refl; no_promotion = λ e. cc }, tt);
})

pub handle_compromise-AllSound :
    (vm : String) (a : Answers) (o : Orchestrator)
    → AllSound o
    → AllSound (handle_compromise vm a o).0
unfolding handle_compromise
handle_compromise-AllSound vm a o h = elim (Option-cases (lookup vm o.vm_to_service)) [
  | inl e ↦ rw (e, handle_compromise) h
  | inr (service, e) ↦ elim (Bool-cases (str_eq service "")) [
    | inl b ↦ rw (e, b, handle_compromise) h
    | inr b ↦ elim (Option-cases (lookup service o.services)) [
      | inl e2 ↦ rw (e, b, e2, handle_compromise) h
      | inr (p, e2) ↦ elim (Option-cases (lookup vm p.nodes)) [
        | inl e3 ↦ rw (e, b, e2, e3, handle_compromise) h
        | inr (n, e3) ↦
            rw (e, b, e2, e3, handle_compromise)
              (store o service _ h
                (compromise_node-IsSound p vm n a e3 (IsSound-pair o service p h e2)))
      ]
    ]
  ]
]
