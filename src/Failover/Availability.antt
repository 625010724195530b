-- ===== src/Failover/Availability.antt =====
-- Whether a service goes on running when its active node is compromised.
use ganglion_oob.Prelude.{
  String, Option, none, some, Bool, true, false, not, ◌&&◌, ◌||◌, [], ◌∷◌, ◌≡◌, refl, sym, ap, ◌∙◌,
  inl, inr, Bool-cases, Option-cases, if◌then◌else◌, str_eq, arith,
}
use ganglion_oob.Prelude.Dict.{Dict, modify}
use ganglion_oob.Failover.Types.{active, degraded, no_standby, Node, ServicePair, Answers}
use ganglion_oob.Failover.Compromise.{
  first_standby, no_standby_left, promotion_failed, promotion_done, failover_active,
  compromise_node,
}
use ganglion_oob.Failover.Promotion.{is_candidate, mark}

-- Another node is a healthy standby.
pub can_take_over : String → Dict Node → Bool
can_take_over vm [] = false
can_take_over vm ((k, n) ∷ d) = (is_candidate n && not (str_eq k vm)) || can_take_over vm d

abbrev is_some : {A : Type 0} → Option A → Bool
is_some none = false
is_some (some x) = true

first_standby-mark :
    (vm : String) (d : Dict Node) → is_some (first_standby (modify vm mark d)) ≡ can_take_over vm d
unfolding first_standby modify can_take_over
first_standby-mark vm [] = refl
first_standby-mark vm ((k, n) ∷ d) = ground (arith, first_standby-mark vm d)

-- The compromise of the active node, for all answers of the backend: the service's state is DEGRADED
-- if another node is a healthy standby and the promotion succeeds, and NO_STANDBY otherwise; a cure of
-- the compromised node is started unless there was a standby whose promotion failed.
pub compromise_node-availability :
    (pair : ServicePair) (vm : String) (node : Node) (a : Answers)
    → node.role ≡ active
    → let (p, cure) = compromise_node pair vm node a in
      (p.state ≡ (if can_take_over vm pair.nodes && a.promoted then degraded else no_standby))
      × (cure ≡ (not (can_take_over vm pair.nodes) || a.promoted))
unfolding compromise_node failover_active no_standby_left promotion_failed promotion_done
compromise_node-availability pair vm node a is_active =
    let found = first_standby (modify vm mark pair.nodes) in
    elim (Option-cases found) [
      | inl e ↦
          let nobody : can_take_over vm pair.nodes ≡ false =
            sym (first_standby-mark vm pair.nodes) ∙ ap is_some e in
          rw (is_active, e, nobody, failover_active) (refl, refl)
      | inr (s, e) ↦
          let somebody : can_take_over vm pair.nodes ≡ true =
            sym (first_standby-mark vm pair.nodes) ∙ ap is_some e in
          elim (Bool-cases a.promoted) [
            | inl up ↦ rw (is_active, e, somebody, up, failover_active) (refl, refl)
            | inr down ↦ rw (is_active, e, somebody, down, failover_active) (refl, refl)
          ]
    ]
