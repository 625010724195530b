-- ===== src/Containment/DryRun.antt =====
-- A dry run touches nothing, every command is on record, and a live backend has its program.
use ganglion_oob.Prelude.{
  String, Option, none, Bool, true, false, not, ◌&&◌, ◌||◌, List, [], ◌∷◌, ◌++◌, map, ◌≡◌, refl,
  sym, ap, ◌∙◌, ◌⊎◌, inl, inr, Bool-cases, if◌then◌else◌, str_eq, All,
}
use mathlib.Core.List.{append_assoc, append-nil}
use ganglion_oob.Containment.{
  Command, Run, Action, Platform, null, nftables, iptables, netsh, pf, Backend, new_backend,
  isolate_cmds, join, run, run_all, isolate_host, lift, lift_cmds, build_backend, action_of, exited,
  raised, or_null, nft_or_iptables, forced, unforced_linux,
}

-- What an action says of a command that was only noted.
abbrev pub IsNoted : Action → Type 0
IsNoted a = (a.executed ≡ false) × (a.rc ≡ none) × (a.error ≡ none)

action_of-command :
    (action : String) (cmd : Command) (r : Run) → (action_of action cmd r).command ≡ join cmd
action_of-command action cmd (exited rc err) = refl
action_of-command action cmd (raised err) = refl

run-command :
    (exec : Command → Run) (action : String) (cmd : Command) (b : Backend)
    → (run exec action cmd b).1.command ≡ join cmd
unfolding run
run-command exec action cmd b = elim (Bool-cases b.dry_run) [
  | inl e ↦ rw e refl
  | inr e ↦ rw e (action_of-command action cmd (exec cmd))
]

run-log :
    (exec : Command → Run) (action : String) (cmd : Command) (b : Backend)
    → (run exec action cmd b).0.actions ≡ b.actions ++ (run exec action cmd b).1 ∷ []
unfolding run
run-log exec action cmd b = refl

-- What a command does to a backend in a dry run.
abbrev noted : String → Command → Backend → Backend × Action
noted action cmd b =
    let act : Action = record {
      action = action;
      command = join cmd;
      executed = false;
      rc = none;
      error = none;
    } in
    (record b { actions = b.actions ++ act ∷ [] }, act)

run-dry :
    (exec : Command → Run) (action : String) (cmd : Command) (b : Backend)
    → b.dry_run ≡ true
    → run exec action cmd b ≡ noted action cmd b
unfolding run
run-dry exec action cmd b dry =
    let pick : (if b.dry_run then (noted action cmd b).1 else action_of action cmd (exec cmd))
        ≡ (noted action cmd b).1 =
      rw dry refl in
    ap (λ (act : Action). (record b { actions = b.actions ++ act ∷ [] }, act)) pick

module _ (exec : Command → Run) (action : String) where
  -- The log grows by the actions that are returned, which are those of the commands in their order.
  run_all-log :
      (cmds : List Command) (b : Backend)
      → ((run_all exec action cmds b).0.actions ≡ b.actions ++ (run_all exec action cmds b).1)
        × (map (λ a. a.command) (run_all exec action cmds b).1 ≡ map join cmds)
  unfolding run_all
  run_all-log [] b = (sym (append-nil b.actions), refl)
  run_all-log (cmd ∷ cmds) b =
      let (b', act) = run exec action cmd b in
      let (grown, commands) = run_all-log cmds b' in
      (
        grown
            ∙ ap (λ l. l ++ (run_all exec action cmds b').1) (run-log exec action cmd b)
            ∙ append_assoc b.actions (act ∷ []) (run_all exec action cmds b').1,
        ap (λ c. c ∷ map (λ a. a.command) (run_all exec action cmds b').1)
              (run-command exec action cmd b)
            ∙ ap (λ l. join cmd ∷ l) commands,
      )

-- Dry runs: which commands would be run does not depend on the machine, and none is.
module _ (exec exec' : Command → Run) where
  run_all-dry :
      (action : String) (cmds : List Command) (b : Backend)
      → b.dry_run ≡ true
      → (run_all exec action cmds b ≡ run_all exec' action cmds b)
        × All IsNoted (run_all exec action cmds b).1
  unfolding run_all
  run_all-dry action [] b dry = (refl, tt)
  run_all-dry action (cmd ∷ cmds) b dry =
      let (same, all) = run_all-dry action cmds (noted action cmd b).0 dry in
      rw (run-dry exec action cmd b dry, run-dry exec' action cmd b dry)
        (ap (λ r. (r.0, (noted action cmd b).1 ∷ r.1)) same, ((refl, refl, refl), all))

  -- A dry run touches nothing: what isolating or lifting returns and leaves behind does not depend on
  -- what the commands would do on the machine, and every command is noted as not executed, with no
  -- return code and no error.
  pub dry_run-IsNoted :
      (mgmt : Option String) (b : Backend)
      → b.dry_run ≡ true
      → (isolate_host exec mgmt b ≡ isolate_host exec' mgmt b)
        × (lift exec b ≡ lift exec' b)
        × All IsNoted (isolate_host exec mgmt b).1
        × All IsNoted (lift exec b).1
  unfolding isolate_host lift
  dry_run-IsNoted mgmt b dry =
      let (same, all) = run_all-dry "isolate" (isolate_cmds b.platform mgmt) b dry in
      let (same', all') = run_all-dry "lift" (lift_cmds b.platform) b dry in
      (
        ap (λ r. (record r.0 { contained = true }, r.1)) same,
        ap (λ r. (record r.0 { contained = false }, r.1)) same',
        all,
        all',
      )

-- Every command of an isolation is run or noted, in order, and stands at the end of the log.
pub isolate_host-log :
    (exec : Command → Run) (mgmt : Option String) (b : Backend)
    → ((isolate_host exec mgmt b).0.actions ≡ b.actions ++ (isolate_host exec mgmt b).1)
      × (map (λ a. a.command) (isolate_host exec mgmt b).1
          ≡ map join (isolate_cmds b.platform mgmt))
      × ((isolate_host exec mgmt b).0.contained ≡ true)
unfolding isolate_host
isolate_host-log exec mgmt b =
    let (grown, commands) = run_all-log exec "isolate" (isolate_cmds b.platform mgmt) b in
    (grown, commands, refl)

-- The program that a platform's commands call.
abbrev pub program : Platform → String
program null = "ganglion-null"
program nftables = "nft"
program iptables = "iptables"
program netsh = "netsh"
program pf = "pfctl"

abbrev IsGuarded : (String → Bool) → Bool → Backend → Type 0
IsGuarded installed dry b =
    b.dry_run ≡ false → (dry ≡ false) × (installed (program b.platform) ≡ true)

new_backend-dry : (p : Platform) → (new_backend p true).dry_run ≡ true
unfolding new_backend
new_backend-dry null = refl
new_backend-dry nftables = refl
new_backend-dry iptables = refl
new_backend-dry netsh = refl
new_backend-dry pf = refl

new_backend-platform : (p : Platform) (d : Bool) → (new_backend p d).platform ≡ p
unfolding new_backend
new_backend-platform null d = refl
new_backend-platform nftables d = refl
new_backend-platform iptables d = refl
new_backend-platform netsh d = refl
new_backend-platform pf d = refl

module _ (sysname : String) (installed : String → Bool) (dry : Bool) where
  null-IsGuarded : IsGuarded installed dry (new_backend null true)
  unfolding new_backend
  null-IsGuarded live = absurd (cc live)

  pick-IsGuarded :
      (c : Bool) (a b : Backend)
      → IsGuarded installed dry a
      → IsGuarded installed dry b
      → IsGuarded installed dry (if c then a else b)
  pick-IsGuarded true a b ha hb = ha
  pick-IsGuarded false a b ha hb = hb

  or_null-IsGuarded :
      (p : Platform) → IsGuarded installed dry (or_null sysname installed p (program p) dry)
  or_null-IsGuarded p = guarded dry (installed (program p)) refl refl
    where
      guarded :
          (d there : Bool)
          → dry ≡ d
          → installed (program p) ≡ there
          → IsGuarded installed dry (if d || there then new_backend p d else new_backend null true)
      guarded true there e i live = absurd (cc (live, new_backend-dry p))
      guarded false true e i live = (e, rw (new_backend-platform p false) i)
      guarded false false e i live = null-IsGuarded live

  nft_or_iptables-IsGuarded : IsGuarded installed dry (nft_or_iptables sysname installed dry)
  nft_or_iptables-IsGuarded = guarded dry (installed "nft") refl refl
    where
      guarded :
          (d there : Bool)
          → dry ≡ d
          → installed "nft" ≡ there
          → IsGuarded installed dry (
              if d || there
              then new_backend nftables d
              else if installed "iptables"
              then new_backend iptables d
              else new_backend null true)
      guarded true there e i = λ live. absurd (cc (live, new_backend-dry nftables))
      guarded false true e i = λ live. (e, rw (new_backend-platform nftables false) i)
      guarded false false e i = elim (Bool-cases (installed "iptables")) [
        | inl t ↦ rw t (λ live. (e, rw (new_backend-platform iptables false) t))
        | inr t ↦ rw t null-IsGuarded
      ]

  build-IsGuarded :
      (force : Option String) → IsGuarded installed dry (build_backend sysname installed dry force)
  unfolding build_backend
  build-IsGuarded force =
      let last =
        pick-IsGuarded (forced force "pf" || str_eq sysname "darwin") _ _ (or_null-IsGuarded pf)
          null-IsGuarded in
      let windows =
        pick-IsGuarded (forced force "netsh" || str_eq sysname "windows") _ _
          (or_null-IsGuarded netsh) last in
      let linux =
        pick-IsGuarded (forced force "nftables" || unforced_linux sysname force) _ _
          nft_or_iptables-IsGuarded windows in
      pick-IsGuarded (forced force "null") _ _ null-IsGuarded (
        pick-IsGuarded
          (forced force "iptables"
            || (unforced_linux sysname force && installed "iptables" && not (installed "nft")))
          _ _ (or_null-IsGuarded iptables) linux)

  -- A live backend is only built if a dry run was not asked for and the platform's program is
  -- installed; a dry run is what the caller gets in any other case.
  pub build_backend-IsGuarded :
      (force : Option String)
      → let b = build_backend sysname installed dry force in
        (b.dry_run ≡ true)
        ⊎ ((b.dry_run ≡ false) × (dry ≡ false) × (installed (program b.platform) ≡ true))
  build_backend-IsGuarded force =
      let b = build_backend sysname installed dry force in
      elim (Bool-cases b.dry_run) [
        | inl e ↦ inl e
        | inr live ↦ let (off, there) = build-IsGuarded force live in inr (live, off, there)
      ]
