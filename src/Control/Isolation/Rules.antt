-- ===== src/Control/Isolation/Rules.antt =====
-- host_control_plane/control_center.py with the backends of containment.py: what an isolation makes of
-- the host's firewall.
use ganglion_oob.Prelude.{
  String, Option, none, some, Bool, true, false, not, ◌||◌, List, [], ◌∷◌, ◌≡◌, refl, ap, ◌∙◌, inl,
  inr, Bool-cases, if◌then◌else◌,
}
use ganglion_oob.Containment.{Command, Run, Backend, isolate_cmds, run, run_all, isolate_host}
use ganglion_oob.Control.Scoring.{Status}
use ganglion_oob.Control.Engine.{Engine, vm_of}
use ganglion_oob.Control.Isolation.{
  Containment, absent, dry_run, live, Response, net_ok, host_ok, trigger_isolation,
}
use ganglion_oob.Control.Isolation.Outcome.{trigger_isolation-flags}

-- What `isolate_host` on the control plane's backend shows to the engine: it returns, whatever its
-- commands did.
unfoldable pub as_containment : (Command → Run) → Option Backend → Containment
as_containment exec none = absent
as_containment exec (some b) =
    let (b', actions) = isolate_host exec none b in if b'.dry_run then dry_run true else live true

run_all-dry_run :
    (exec : Command → Run) (action : String) (cmds : List Command) (b : Backend)
    → (run_all exec action cmds b).0.dry_run ≡ b.dry_run
unfolding run_all run
run_all-dry_run exec action [] b = refl
run_all-dry_run exec action (cmd ∷ cmds) b =
    run_all-dry_run exec action cmds (run exec action cmd b).0

isolate_host-dry_run :
    (exec : Command → Run) (b : Backend) → (isolate_host exec none b).0.dry_run ≡ b.dry_run
unfolding isolate_host
isolate_host-dry_run exec b = run_all-dry_run exec "isolate" (isolate_cmds b.platform none) b

host_ok-as_containment :
    (exec : Command → Run) (b : Backend) → host_ok (as_containment exec (some b)) ≡ not b.dry_run
unfolding as_containment host_ok
host_ok-as_containment exec b = elim (Bool-cases b.dry_run) [
  | inl e ↦ rw (isolate_host-dry_run exec b, as_containment) (rw e refl)
  | inr e ↦ rw (isolate_host-dry_run exec b, as_containment) (rw e refl)
]

-- An isolation with a containment backend: a machine that was not isolated is shown as ISOLATED
-- exactly if the hypervisor cut its network or the backend is live, whatever the firewall's commands
-- answer, so rules that all failed count as enforced.
pub trigger_isolation-backend :
    (exec : Command → Run) (b : Backend) (vm_id : String) (r : Response) (e : Engine)
    → (vm_of vm_id e).isolated ≡ false
    → let response = record r { containment = as_containment exec (some b) } in
      (vm_of vm_id (trigger_isolation vm_id response e)).status ≡ (
        if net_ok r.results || not b.dry_run then Status.isolated else Status.quarantine_unenforced)
trigger_isolation-backend exec b vm_id r e fresh =
    let response = record r { containment = as_containment exec (some b) } in
    let (shown, moved) = trigger_isolation-flags vm_id response e fresh in
    ap (λ (x : Bool × Bool × Status). x.2) shown
    ∙ ap (λ c. if net_ok r.results || c then Status.isolated else Status.quarantine_unenforced)
        (host_ok-as_containment exec b)
