-- ===== src/Firewall/Tests.antt =====
-- The policy of the self-test, and the theorems there.
use ganglion_oob.Prelude.{◌≡◌, ◌↔◌, refl, String, some, none, Bool, false, [], ◌∷◌}
use ganglion_oob.Firewall.{
  FwRule, Flow, FirewallPolicy, any_port, exact, dashed, matches, evaluate, evaluate_from, ip_in,
  port_match, in_range, matched, raised,
}
use ganglion_oob.Firewall.FirstMatch.{IsFirst, evaluate-IsFirst}

-- No address lies in a network that is written out.
abbrev nowhere : String → String → Bool
nowhere cidr ip = false

abbrev known_c2 : FwRule
known_c2 = record {
  action = "deny";
  dir = "out";
  proto = "any";
  src = "any";
  dst = "185.220.1.9/32";
  port = any_port;
  note = "known C2";
}

abbrev https : FwRule
https = record {
  action = "allow";
  dir = "in";
  proto = "tcp";
  src = "any";
  dst = "any";
  port = exact 443;
  note = "https";
}

abbrev policy : FirewallPolicy
policy = record { rules = known_c2 ∷ https ∷ []; default_action = "deny" }

abbrev web : Flow
web = record {
  dir = "in";
  proto = "tcp";
  src_ip = "1.2.3.4";
  dst_ip = "10.0.0.9";
  dst_port = some 443;
}

web_allowed : evaluate nowhere policy web ≡ matched 1 https
unfolding evaluate evaluate_from matches ip_in port_match
web_allowed = refl

-- A range whose ends are no integers makes the evaluation fail.
bad_range :
    evaluate nowhere (record policy { rules = record https { port = dashed none none } ∷ [] }) web
    ≡ raised
unfolding evaluate evaluate_from matches ip_in port_match in_range
bad_range = refl

evaluate-IsFirst_example :
    (evaluate nowhere policy web ≡ matched 1 https) ↔ IsFirst nowhere web 1 https policy.rules
evaluate-IsFirst_example = evaluate-IsFirst nowhere web policy 1 https
