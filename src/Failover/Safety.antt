-- ===== src/Failover/Safety.antt =====
-- Every interleaving of methods and cure threads keeps the pairs sound.
use ganglion_oob.Prelude.{
  String, ◌≡◌, ◌≢◌, inl, inr, some, Bool, true, false, Option-cases, if◌then◌else◌,
}
use ganglion_oob.Prelude.Dict.{lookup, All-lookup}
use ganglion_oob.Failover.Types.{
  active, promoting, rejoining, failing_over, Node, ServicePair, Orchestrator, Cure, set_role_event,
}
use ganglion_oob.Failover.Cure.{cure_begin, cure_finish, reset_service, rejoin_node, reject_node}
use ganglion_oob.Failover.Steps.{
  start, Step, registers, compromised, begins, finishes, resets, Reach, here, next,
}
use ganglion_oob.Failover.Nodes.{IsSettled, IsSound, modify-IsSettled}
use ganglion_oob.Failover.Invariant.{
  AllSound, IsSound-pair, store, register_service-AllSound, handle_compromise-AllSound,
  rejoin_node-IsSound, reject_node-IsSound, reset_pair-IsSound,
}

cure_begin-AllSound : (c : Cure) (o : Orchestrator) → AllSound o → AllSound (cure_begin c o).0
unfolding cure_begin
cure_begin-AllSound c o h = elim (Option-cases (lookup c.service o.services)) [
  | inl e ↦ rw (e, cure_begin) h
  | inr (p, e) ↦ elim (Option-cases (lookup c.vm_id p.nodes)) [
    | inl e2 ↦ rw (e, e2, cure_begin) h
    | inr (n, e2) ↦
        let s = IsSound-pair o c.service p h e in
        rw (e, e2, cure_begin)
          (store o c.service _ h (record {
            settled = s.settled;
            entries =
                modify-IsSettled _ c.vm_id (set_role_event rejoining "validating_clean_state")
                  p.nodes
                  (λ m i. record { named = i.named; unique = λ x. cc; no_promotion = λ x. cc })
                  s.entries;
          }))
  ]
]

answered-IsSound :
    (p : ServicePair) (vm : String) (ok : Bool)
    → IsSound p
    → IsSound (if ok then rejoin_node p vm else reject_node p vm)
answered-IsSound p vm true h = rejoin_node-IsSound p vm h
answered-IsSound p vm false h = reject_node-IsSound p vm h

cure_finish-AllSound :
    (c : Cure) (ok : Bool) (o : Orchestrator) → AllSound o → AllSound (cure_finish c ok o)
unfolding cure_finish
cure_finish-AllSound c ok o h = elim (Option-cases (lookup c.service o.services)) [
  | inl e ↦ rw (e, cure_finish) h
  | inr (p, e) ↦ elim (Option-cases (lookup c.vm_id p.nodes)) [
    | inl e2 ↦ rw (e, e2, cure_finish) h
    | inr (n, e2) ↦
        rw (e, e2, cure_finish)
          (store o c.service _ h (answered-IsSound p c.vm_id ok (IsSound-pair o c.service p h e)))
  ]
]

reset_service-AllSound :
    (service : String) (o : Orchestrator) → AllSound o → AllSound (reset_service service o)
unfolding reset_service
reset_service-AllSound service o h = elim (Option-cases (lookup service o.services)) [
  | inl e ↦ rw (e, reset_service) h
  | inr (p, e) ↦
      rw (e, reset_service)
        (store o service _ h (reset_pair-IsSound p (IsSound-pair o service p h e)))
]

Step-AllSound : {o o' : Orchestrator} → Step o o' → AllSound o → AllSound o'
Step-AllSound {o} (registers service vip vm l) h = register_service-AllSound service vip vm l o h
Step-AllSound {o} (compromised vm a) h = handle_compromise-AllSound vm a o h
Step-AllSound {o} (begins before c after e) h = cure_begin-AllSound c o h
Step-AllSound {o} (finishes before c after ok e) h = cure_finish-AllSound c ok o h
Step-AllSound {o} (resets service) h = reset_service-AllSound service o h

Reach-AllSound : {o o' : Orchestrator} → AllSound o → Reach o o' → AllSound o'
Reach-AllSound h here = h
Reach-AllSound h (next r s) = Step-AllSound s (Reach-AllSound h r)

-- No split brain: after any sequence of registrations, compromises, cures in any interleaving and
-- resets, with any answers of the backend, two nodes of one service that are both ACTIVE are the
-- same node, and it is the one that `active_node` names.
pub no_split_brain :
    {o : Orchestrator} (service : String) (p : ServicePair) (j k : String) (m n : Node)
    → Reach start o
    → lookup service o.services ≡ some p
    → lookup j p.nodes ≡ some m
    → lookup k p.nodes ≡ some n
    → m.role ≡ active
    → n.role ≡ active
    → (j ≡ k) × (p.active_node ≡ some k)
no_split_brain {o} service p j k m n r found at_j at_k m_active n_active =
    let s = IsSound-pair o service p (Reach-AllSound tt r) found in
    let a : p.active_node ≡ some j =
      (All-lookup (IsSettled p.active_node) j m p.nodes s.entries at_j).unique m_active in
    let b : p.active_node ≡ some k =
      (All-lookup (IsSettled p.active_node) k n p.nodes s.entries at_k).unique n_active in
    (cc (a, b), b)

-- The states in the middle of a failover are never seen: after any such sequence no service is
-- FAILING_OVER and none of its nodes is PROMOTING.
pub failover_is_atomic :
    {o : Orchestrator} (service : String) (p : ServicePair) (k : String) (n : Node)
    → Reach start o
    → lookup service o.services ≡ some p
    → lookup k p.nodes ≡ some n
    → (p.state ≢ failing_over) × (n.role ≢ promoting)
failover_is_atomic {o} service p k n r found at_k =
    let s = IsSound-pair o service p (Reach-AllSound tt r) found in
    (s.settled, (All-lookup (IsSettled p.active_node) k n p.nodes s.entries at_k).no_promotion)
