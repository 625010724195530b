-- ===== src/Failover/Nodes.antt =====
-- What holds of every node of a pair, and how the changes of a node's role keep it.
use ganglion_oob.Prelude.{
  String, ◌≡◌, refl, ap, sym, ◌≢◌, ◌⊎◌, inl, inr, true, Option, some, arith, All,
}
use ganglion_oob.Prelude.Dict.{Dict, modify, All-modify}
use ganglion_oob.Failover.Types.{
  NodeRole, active, promoting, curing, failed, failing_over, Node, ServicePair, set_role,
  set_role_event, role_eq,
}

-- An entry of `pair.nodes`: its key is the node's own name, an ACTIVE node is the one that
-- `active_node` names, and no promotion is under way.
pub record IsSettled (act : Option String) (e : String × Node) : Type 0 where
  pub named : e.1.node_id ≡ e.0
  pub unique : e.1.role ≡ active → act ≡ some e.0
  pub no_promotion : e.1.role ≢ promoting

pub record IsSound (p : ServicePair) : Type 0 where
  pub settled : p.state ≢ failing_over
  pub entries : All (IsSettled p.active_node) p.nodes

-- A change of a node that keeps its name and leaves the role alone, or makes it a passive one.
module _ (act : Option String) (k : String) (f : Node → Node) where
  pub modify-IsSettled :
      (d : Dict Node)
      → ((n : Node) → IsSettled act (k, n) → IsSettled act (k, f n))
      → All (IsSettled act) d
      → All (IsSettled act) (modify k f d)
  modify-IsSettled d change h =
      All-modify (IsSettled act) (IsSettled act) k f d (λ j n ne s. s) change h

pub role_eq-eq : (a b : NodeRole) → role_eq a b ≡ true → a ≡ b
role_eq-eq a b h = ground arith

pub passive :
    (act : Option String) (k : String) (r : NodeRole) (n : Node)
    → r ≢ active
    → r ≢ promoting
    → IsSettled act (k, n)
    → IsSettled act (k, set_role r n)
passive act k r n a b s = record { named = s.named; unique = λ e. absurd (a e); no_promotion = b }

-- While `s` is being promoted.
pub record IsPromoting (act : Option String) (s : String) (e : String × Node) : Type 0 where
  pub named : e.1.node_id ≡ e.0
  pub unique : e.1.role ≡ active → act ≡ some e.0
  pub only : e.1.role ≡ promoting → e.0 ≡ s

-- Between making `s` ACTIVE and curing the node that was.
pub record IsHandingOver (act : Option String) (s : String) (e : String × Node) : Type 0 where
  pub named : e.1.node_id ≡ e.0
  pub either : e.1.role ≡ active → (act ≡ some e.0) ⊎ (e.0 ≡ s)
  pub no_promotion : e.1.role ≢ promoting

module _ (act : Option String) (s : String) where
  pub begin_promotion :
      (d : Dict Node)
      → All (IsSettled act) d
      → All (IsPromoting act s) (modify s (set_role_event promoting "promoting") d)
  begin_promotion d h =
      All-modify (IsSettled act) (IsPromoting act s) s _ d
        (λ j n ne i. record {
          named = i.named;
          unique = i.unique;
          only = λ e. absurd (i.no_promotion e);
        })
        (λ n i. record { named = i.named; unique = λ e. cc; only = λ e. refl }) h

  pub give_up :
      (d : Dict Node)
      → All (IsPromoting act s) d
      → All (IsSettled act) (modify s (set_role failed) d)
  give_up d h =
      All-modify (IsPromoting act s) (IsSettled act) s _ d
        (λ j n ne i. record {
          named = i.named;
          unique = i.unique;
          no_promotion = λ e. ne (i.only e);
        })
        (λ n i. record { named = i.named; unique = λ e. cc; no_promotion = λ e. cc }) h

  pub take_over :
      (d : Dict Node)
      → All (IsPromoting act s) d
      → All (IsHandingOver act s) (modify s (set_role_event active "active") d)
  take_over d h =
      All-modify (IsPromoting act s) (IsHandingOver act s) s _ d
        (λ j n ne i. record {
          named = i.named;
          either = λ e. inl (i.unique e);
          no_promotion = λ e. ne (i.only e);
        })
        (λ n i. record { named = i.named; either = λ e. inr refl; no_promotion = λ e. cc }) h

  pub retire :
      (dead : String) (d : Dict Node)
      → act ≡ some dead
      → All (IsHandingOver act s) d
      → All (IsSettled (some s)) (modify dead (set_role curing) d)
  retire dead d was h =
      All-modify (IsHandingOver act s) (IsSettled (some s)) dead _ d
        (λ j n ne i. record {
          named = i.named;
          unique = λ e. elim (i.either e) [
            | inl old ↦ absurd (ne (cc (old, was)))
            | inr new ↦ ap some (sym new)
          ];
          no_promotion = i.no_promotion;
        })
        (λ n i. record { named = i.named; unique = λ e. cc; no_promotion = λ e. cc }) h
