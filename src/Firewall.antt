-- ===== src/Firewall.antt =====
-- blue_team/firewall/firewall.py: the ordered policy of the firewall. Whether an address lies in a
-- network is what the `ipaddress` module says, a parameter here; false where it raises ValueError.
pub mod FirstMatch
mod Tests
use ganglion_oob.Prelude.{
  ℕ, zero, suc, ◌+◌, ◌==◌, String, Option, none, some, Bool, true, false, not, ◌&&◌, ◌||◌, List, [],
  ◌∷◌, ◌++◌, leb, if◌then◌else◌, str_eq,
}

-- A rule's port as it is written: any (or none), an integer, a text with a dash, of which each part
-- may be no integer, or another value, which may be the text of an integer.
pub data PortSpec : Type 0 where
  any_port : PortSpec
  exact : ℕ → PortSpec
  dashed : Option ℕ → Option ℕ → PortSpec
  other : Option ℕ → PortSpec

-- The answer, or the ValueError of `int`.
pub data Answer : Type 0 where
  yes no value_error : Answer

abbrev pub answer : Bool → Answer
answer true = yes
answer false = no

-- `int(lo) <= port <= int(hi)`, which does not look at `hi` when the first comparison fails
unfoldable pub in_range : Option ℕ → Option ℕ → ℕ → Answer
in_range none hi p = value_error
in_range (some lo) none p = if leb lo p then value_error else no
in_range (some lo) (some hi) p = answer (leb lo p && leb p hi)

-- `_port_match`
unfoldable pub port_match : PortSpec → Option ℕ → Answer
port_match any_port p = yes
port_match (exact n) none = no
port_match (exact n) (some p) = answer (p == n)
port_match (dashed lo hi) none = no
port_match (dashed lo hi) (some p) = in_range lo hi p
port_match (other n) none = no
port_match (other none) (some p) = no
port_match (other (some n)) (some p) = answer (p == n)

-- `FwRule`
pub record FwRule : Type 0 where
  pub action : String
  pub dir : String
  pub proto : String
  pub src : String
  pub dst : String
  pub port : PortSpec
  pub note : String

-- A flow; what it does not say has the defaults of the source, and no port is none.
pub record Flow : Type 0 where
  pub dir : String
  pub proto : String
  pub src_ip : String
  pub dst_ip : String
  pub dst_port : Option ℕ

-- What `evaluate` answers: the index and the rule that matched, the default, or the exception.
pub data Verdict : Type 0 where
  matched : ℕ → FwRule → Verdict
  default_policy : Verdict
  raised : Verdict

-- `FirewallPolicy`
pub record FirewallPolicy : Type 0 where
  pub rules : List FwRule
  pub default_action : String

-- The action of the answer.
abbrev pub action_of : FirewallPolicy → Verdict → Option String
action_of p (matched i r) = some r.action
action_of p default_policy = some p.default_action
action_of p raised = none

unfoldable pub add : FwRule → FirewallPolicy → FirewallPolicy
add r p = record p { rules = p.rules ++ r ∷ [] }

module _ (in_network : String → String → Bool) where
  -- `_ip_in`
  unfoldable pub ip_in : String → String → Bool
  ip_in cidr ip =
      if str_eq cidr "any" || str_eq cidr "*" || str_eq cidr "0.0.0.0/0"
      then true
      else in_network cidr ip

  -- `FwRule.matches`
  unfoldable pub matches : FwRule → Flow → Answer
  matches r f =
      if not (str_eq r.dir f.dir)
      then no
      else if not (str_eq r.proto "any") && not (str_eq r.proto f.proto)
      then no
      else if not (ip_in r.src f.src_ip)
      then no
      else if not (ip_in r.dst f.dst_ip)
      then no
      else port_match r.port f.dst_port

  -- The loop, with the index of the next rule.
  unfoldable pub evaluate_from : ℕ → List FwRule → Flow → Verdict
  evaluate_from i [] f = default_policy
  evaluate_from i (r ∷ rs) f = elim (matches r f) [
    | yes ↦ matched i r
    | no ↦ evaluate_from (i + 1) rs f
    | value_error ↦ raised
  ]

  unfoldable pub evaluate : FirewallPolicy → Flow → Verdict
  evaluate p f = evaluate_from 0 p.rules f
