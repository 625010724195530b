-- ===== src/Containment/Tests.antt =====
-- Backends at small inputs, and the theorems at them.
use ganglion_oob.Prelude.{String, none, some, Bool, true, false, [], ◌∷◌, map, ◌≡◌, refl, str_eq}
use ganglion_oob.Prelude.Int.{pos}
use ganglion_oob.Containment.{
  Command, Run, exited, Platform, iptables, Backend, lift_cmds, join, isolate_host, lift,
  build_backend,
}
use ganglion_oob.Containment.DryRun.{IsNoted, dry_run-IsNoted}
use ganglion_oob.Prelude.{All}

-- No command succeeds, and all do.
abbrev denied : Command → Run
denied cmd = exited (pos 1) "Permission denied"

abbrev granted : Command → Run
granted cmd = exited (pos 0) ""

abbrev dry : Backend
dry = record { platform = iptables; dry_run = true; actions = []; contained = false }

lift_line : map join (lift_cmds Platform.pf) ≡ "pfctl -a ganglion_oob -F all" ∷ []
unfolding lift_cmds join
lift_line = refl

dry_run-IsNoted_example :
    (isolate_host denied (some "10.0.0.0/24") dry ≡ isolate_host granted (some "10.0.0.0/24") dry)
    × (lift denied dry ≡ lift granted dry)
    × All IsNoted (isolate_host denied (some "10.0.0.0/24") dry).1
    × All IsNoted (lift denied dry).1
dry_run-IsNoted_example = dry_run-IsNoted denied granted (some "10.0.0.0/24") dry refl

abbrev only_nft : String → Bool
only_nft name = str_eq name "nft"

linux_live : (build_backend "linux" only_nft false none).platform ≡ Platform.nftables
unfolding build_backend
linux_live = refl
