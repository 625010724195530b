-- ===== src/Failover/Tests.antt =====
-- One service through a failover, and the theorems of the orchestrator at its states.
use ganglion_oob.Prelude.{
  String, ◌≡◌, refl, ◌≢◌, none, some, [], ◌∷◌, true, false, eq_iff, if◌then◌else◌, not, ◌&&◌, ◌||◌,
}
use ganglion_oob.Prelude.Dict.{lookup, insert, modify}
use ganglion_oob.Failover.Types.{
  active, standby, failed, degraded, healthy, restored, no_standby, Node, ServicePair, Orchestrator,
  Answers, new_node, register,
}
use ganglion_oob.Failover.Compromise.{
  register_service, handle_compromise, compromise_node, failover_active, add_standbys, map_vms,
  first_standby, no_standby_left, promotion_done,
}
use ganglion_oob.Failover.Cure.{validate_node, rejoin_node, active_is_healthy}
use ganglion_oob.Failover.Steps.{start, Reach, here, next, registers, compromised}
use ganglion_oob.Failover.Nodes.{IsSound}
use ganglion_oob.Failover.Safety.{no_split_brain}
use ganglion_oob.Failover.Availability.{can_take_over, compromise_node-availability}
use ganglion_oob.Failover.Promotion.{mark, promotion_failure}
use ganglion_oob.Failover.Races.{recompromise_forgotten, restored_without_active}

abbrev answers : Answers
answers = record { promoted = true; redirected = true; started = 5; finished = 9 }

abbrev refused : Answers
refused = record answers { promoted = false }

abbrev node_a : Node
node_a = new_node "a" active

abbrev node_b : Node
node_b = new_node "b" standby

abbrev node_c : Node
node_c = new_node "c" standby

abbrev pair : ServicePair
pair = record {
  service = "web";
  vip = "10.0.0.100";
  nodes = ("a", node_a) ∷ ("b", node_b) ∷ ("c", node_c) ∷ [];
  state = healthy;
  active_node = some "a";
  timeline = [];
  rto_started = none;
  rto_seconds = none;
}

abbrev lone : ServicePair
lone = record pair { nodes = ("a", node_a) ∷ [] }

registered : Orchestrator
registered = register_service "web" "10.0.0.100" "a" ("b" ∷ "c" ∷ []) start

failed_over : Orchestrator
failed_over = (handle_compromise "a" answers registered).0

failed_over-reached : Reach start failed_over
unfolding failed_over registered
failed_over-reached =
    next (next here (registers "web" "10.0.0.100" "a" ("b" ∷ "c" ∷ []))) (compromised "a" answers)

abbrev after : ServicePair
after =
    (compromise_node
      (record pair {
        timeline = record { stage = register "10.0.0.100" ("b" ∷ "c" ∷ []); node = "a" } ∷ [];
      })
      "a" node_a answers).0

after_failover : lookup "web" failed_over.services ≡ some after
unfolding failed_over registered register_service handle_compromise compromise_node failover_active
    add_standbys map_vms first_standby promotion_done lookup insert modify
after_failover = refl

no_split_brain_example : ◌≡◌ {A = String} "b" "b" × (after.active_node ≡ some "b")
unfolding compromise_node failover_active first_standby promotion_done lookup modify
no_split_brain_example =
    no_split_brain "web" after "b" "b" (record node_b { role = active; last_event = "active" })
      (record node_b { role = active; last_event = "active" }) failed_over-reached after_failover
      refl refl refl refl

compromise_node-availability_example :
    ((compromise_node pair "a" node_a answers).0.state
      ≡ (if can_take_over "a" pair.nodes && answers.promoted then degraded else no_standby))
    × ((compromise_node pair "a" node_a answers).1
        ≡ (not (can_take_over "a" pair.nodes) || answers.promoted))
compromise_node-availability_example = compromise_node-availability pair "a" node_a answers refl

promotion_failure_example :
    let (p, cure) = compromise_node pair "a" node_a refused in
    (p.state ≡ no_standby)
    × (p.active_node ≡ some "a")
    × (cure ≡ false)
    × (lookup "b" p.nodes ≡ some (record node_b { role = failed; last_event = "promoting" }))
    × (lookup "a" p.nodes ≡ some (mark node_a))
    × (lookup "c" p.nodes ≡ lookup "c" pair.nodes)
unfolding lookup
promotion_failure_example =
    promotion_failure pair "a" node_a refused refl refl "b" node_b (("a", node_a) ∷ [])
      (("c", node_c) ∷ []) refl (refl, tt) refl (λ e. cc ((eq_iff "b" "a").1 e)) refl "c" refl
      (λ e. cc ((eq_iff "c" "a").1 e)) (λ e. cc ((eq_iff "c" "b").1 e))

recompromise_forgotten_example :
    lookup "b" (rejoin_node (compromise_node pair "b" node_b answers).0 "b").nodes
    ≡ some (record node_b { role = standby; is_healthy = true; last_event = "rejoined_as_standby" })
unfolding lookup
recompromise_forgotten_example = recompromise_forgotten pair "b" node_b answers refl (λ e. cc)

lone-IsSound : IsSound lone
lone-IsSound = record {
  settled = λ e. cc;
  entries = (record { named = refl; unique = λ e. refl; no_promotion = λ e. cc }, tt);
}

restored_without_active_example :
    ((rejoin_node (validate_node (compromise_node lone "a" node_a answers).0 "a") "a").state
      ≡ restored)
    × (standby ≢ active)
unfolding lookup modify compromise_node failover_active first_standby no_standby_left validate_node
    rejoin_node active_is_healthy
restored_without_active_example =
    restored_without_active lone "a" node_a answers "a"
      (record node_a { role = standby; last_event = "rejoined_as_standby" }) lone-IsSound refl refl
      (λ e. cc) (refl, tt) refl
