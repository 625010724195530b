-- ===== src/Containment.antt =====
-- host_control_plane/containment.py: the firewall commands of each platform's backend, how they are
-- run, and the choice of a backend. What a command does is given; times are left out.
pub mod DryRun
mod Tests
use Prim.Native.String.{◌++◌ as ◌+++◌}
use ganglion_oob.Prelude.{
  ℕ, String, Option, none, some, Bool, true, false, not, ◌&&◌, ◌||◌, List, [], ◌∷◌, ◌++◌, map,
  str_eq, if◌then◌else◌,
}
use ganglion_oob.Prelude.Int.{ℤ, pos, negsuc}

abbrev pub Command : Type 0
Command = List String

-- How `subprocess.run` ends: with a return code and the stripped error output, or by raising.
pub data Run : Type 0 where
  exited : ℤ → String → Run
  raised : String → Run

pub record Action : Type 0 where
  pub action : String
  pub command : String
  pub executed : Bool
  pub rc : Option ℤ
  pub error : Option String

-- A class for each platform.
pub data Platform : Type 0 where
  null nftables iptables netsh pf : Platform

pub record Backend : Type 0 where
  pub platform : Platform
  pub dry_run : Bool
  pub actions : List Action
  pub contained : Bool

-- The constructor; that of `NullBackend` forces a dry run.
unfoldable pub new_backend : Platform → Bool → Backend
new_backend null dry_run = record {
  platform = null;
  dry_run = true;
  actions = [];
  contained = false;
}
new_backend p dry_run = record { platform = p; dry_run = dry_run; actions = []; contained = false }

-- `if mgmt_allow`: a missing or empty network adds nothing.
abbrev pub allow : Option String → (String → List Command) → List Command
allow none f = []
allow (some cidr) f = if str_eq cidr "" then [] else f cidr

abbrev pub quarantine : List String → Command
quarantine rule = "nft" ∷ "add" ∷ "rule" ∷ "inet" ∷ "ganglion_oob" ∷ "quarantine" ∷ rule

abbrev pub chain_rule : List String → Command
chain_rule rule = "iptables" ∷ "-A" ∷ "GANGLION_OOB" ∷ rule

abbrev pub netsh_rule : String → List String → Command
netsh_rule verb rule = "netsh" ∷ "advfirewall" ∷ "firewall" ∷ verb ∷ "rule" ∷ rule

-- `_isolate_cmds`
unfoldable pub isolate_cmds : Platform → Option String → List Command
isolate_cmds null mgmt = elim (allow mgmt (λ cidr. ("--allow" ∷ cidr ∷ []) ∷ [])) [
  | [] ↦ ("ganglion-null" ∷ "isolate" ∷ "--drop-all-except-established" ∷ []) ∷ []
  | extra ∷ _ ↦ ("ganglion-null" ∷ "isolate" ∷ "--drop-all-except-established" ∷ extra) ∷ []
]
isolate_cmds nftables mgmt =
    (("nft" ∷ "add" ∷ "table" ∷ "inet" ∷ "ganglion_oob" ∷ [])
      ∷ ("nft" ∷ "add" ∷ "chain" ∷ "inet" ∷ "ganglion_oob" ∷ "quarantine"
          ∷ "{ type filter hook forward priority 0 ; policy drop ; }" ∷ [])
      ∷ quarantine ("ct" ∷ "state" ∷ "established,related" ∷ "accept" ∷ [])
      ∷ [])
    ++ allow mgmt (λ cidr. quarantine ("ip" ∷ "saddr" ∷ cidr ∷ "accept" ∷ []) ∷ [])
isolate_cmds iptables mgmt =
    (("iptables" ∷ "-N" ∷ "GANGLION_OOB" ∷ [])
      ∷ chain_rule ("-m" ∷ "state" ∷ "--state" ∷ "ESTABLISHED,RELATED" ∷ "-j" ∷ "ACCEPT" ∷ [])
      ∷ [])
    ++ allow mgmt (λ cidr. chain_rule ("-s" ∷ cidr ∷ "-j" ∷ "ACCEPT" ∷ []) ∷ [])
    ++ (chain_rule ("-j" ∷ "DROP" ∷ [])
        ∷ ("iptables" ∷ "-I" ∷ "FORWARD" ∷ "-j" ∷ "GANGLION_OOB" ∷ [])
        ∷ ("iptables" ∷ "-I" ∷ "OUTPUT" ∷ "-j" ∷ "GANGLION_OOB" ∷ [])
        ∷ [])
isolate_cmds netsh mgmt =
    (netsh_rule "add"
        ("name=GanglionOOB-Quarantine-out" ∷ "dir=out" ∷ "action=block" ∷ "enable=yes" ∷ [])
      ∷ netsh_rule "add"
          ("name=GanglionOOB-Quarantine-in" ∷ "dir=in" ∷ "action=block" ∷ "enable=yes" ∷ [])
      ∷ [])
    ++ allow mgmt (λ cidr.
      netsh_rule "add" (
        "name=GanglionOOB-Quarantine-mgmt"
        ∷ "dir=in"
        ∷ "action=allow"
        ∷ ("remoteip=" +++ cidr)
        ∷ "enable=yes"
        ∷ [])
      ∷ [])
isolate_cmds pf mgmt = ("pfctl" ∷ "-a" ∷ "ganglion_oob" ∷ "-f" ∷ "-" ∷ []) ∷ []

-- `_lift_cmds`
unfoldable pub lift_cmds : Platform → List Command
lift_cmds null = ("ganglion-null" ∷ "lift" ∷ "--restore-default-policy" ∷ []) ∷ []
lift_cmds nftables = ("nft" ∷ "delete" ∷ "table" ∷ "inet" ∷ "ganglion_oob" ∷ []) ∷ []
lift_cmds iptables =
    ("iptables" ∷ "-D" ∷ "OUTPUT" ∷ "-j" ∷ "GANGLION_OOB" ∷ [])
    ∷ ("iptables" ∷ "-D" ∷ "FORWARD" ∷ "-j" ∷ "GANGLION_OOB" ∷ [])
    ∷ ("iptables" ∷ "-F" ∷ "GANGLION_OOB" ∷ [])
    ∷ ("iptables" ∷ "-X" ∷ "GANGLION_OOB" ∷ [])
    ∷ []
lift_cmds netsh =
    netsh_rule "delete" ("name=GanglionOOB-Quarantine-out" ∷ [])
    ∷ netsh_rule "delete" ("name=GanglionOOB-Quarantine-in" ∷ [])
    ∷ netsh_rule "delete" ("name=GanglionOOB-Quarantine-mgmt" ∷ [])
    ∷ []
lift_cmds pf = ("pfctl" ∷ "-a" ∷ "ganglion_oob" ∷ "-F" ∷ "all" ∷ []) ∷ []

-- `" ".join(cmd)`
unfoldable pub join : Command → String
join [] = ""
join (w ∷ ws) = elim ws [ [] ↦ w | _ ∷ _ ↦ w +++ (" " +++ join ws) ]

-- `proc.returncode`, and the error output when it is not zero and not empty
abbrev pub error_of : ℤ → String → Option String
error_of (pos ℕ.zero) err = none
error_of rc err = if str_eq err "" then none else some err

abbrev pub action_of : String → Command → Run → Action
action_of action cmd (exited rc err) = record {
  action = action;
  command = join cmd;
  executed = true;
  rc = some rc;
  error = error_of rc err;
}
action_of action cmd (raised err) = record {
  action = action;
  command = join cmd;
  executed = true;
  rc = some (negsuc 0);
  error = some err;
}

module _ (exec : Command → Run) where
  -- `_run`: in a dry run the command is only noted, and an exception is noted as code -1.
  unfoldable pub run : String → Command → Backend → Backend × Action
  unfolding join
  run action cmd b =
      let act =
        if b.dry_run
        then record {
          action = action;
          command = join cmd;
          executed = false;
          rc = none;
          error = none;
        }
        else action_of action cmd (exec cmd) in
      (record b { actions = b.actions ++ act ∷ [] }, act)

  unfoldable pub run_all : String → List Command → Backend → Backend × List Action
  run_all action [] b = (b, [])
  run_all action (cmd ∷ cmds) b =
      let (b', act) = run action cmd b in
      let (b'', acts) = run_all action cmds b' in (b'', act ∷ acts)

  unfoldable pub isolate_host : Option String → Backend → Backend × List Action
  unfolding run_all run isolate_cmds
  isolate_host mgmt b =
      let (b', acts) = run_all "isolate" (isolate_cmds b.platform mgmt) b in
      (record b' { contained = true }, acts)

  unfoldable pub lift : Backend → Backend × List Action
  unfolding run_all run lift_cmds
  lift b =
      let (b', acts) = run_all "lift" (lift_cmds b.platform) b in
      (record b' { contained = false }, acts)

abbrev pub forced : Option String → String → Bool
forced none name = false
forced (some f) name = str_eq f name

abbrev pub unforced_linux : String → Option String → Bool
unforced_linux sysname none = str_eq sysname "linux"
unforced_linux sysname (some f) = false

-- `build_backend`, by the system's name and whether a program is installed
module _ (sysname : String) (installed : String → Bool) where
  -- A backend if it is a dry run or its program is there, else the null one.
  abbrev pub or_null : Platform → String → Bool → Backend
  or_null p program dry_run =
      if dry_run || installed program then new_backend p dry_run else new_backend null true

  abbrev pub nft_or_iptables : Bool → Backend
  nft_or_iptables dry_run =
      if dry_run || installed "nft"
      then new_backend nftables dry_run
      else if installed "iptables"
      then new_backend iptables dry_run
      else new_backend null true

  unfoldable pub build_backend : Bool → Option String → Backend
  unfolding new_backend
  build_backend dry_run force =
      if forced force "null"
      then new_backend null true
      else if forced force "iptables"
          || (unforced_linux sysname force && installed "iptables" && not (installed "nft"))
      then or_null iptables "iptables" dry_run
      else if forced force "nftables" || unforced_linux sysname force
      then nft_or_iptables dry_run
      else if forced force "netsh" || str_eq sysname "windows"
      then or_null netsh "netsh" dry_run
      else if forced force "pf" || str_eq sysname "darwin"
      then or_null pf "pfctl" dry_run
      else new_backend null true
