-- ===== src/KillChain/Tests.antt =====
-- The self-test of killchain_reconstructor.py.
use ganglion_oob.Prelude.{◌≤◌, String, List, [], ◌∷◌, map, ◌≡◌, refl}
use ganglion_oob.Prelude.Dict.{lookup, insert}
use ganglion_oob.Mitre.{techniques, tactics}
use ganglion_oob.KillChain.{order_index, tactics_of, tactic_name, reconstruct}
use ganglion_oob.KillChain.Impact.{observed, IsRising, reconstruct-impact}

abbrev unsorted : List String → List String
unsorted xs = xs

-- Given out of order, the stages come in the order of the chain.
intrusion :
    map (λ s. s.order) (reconstruct unsorted ("T1486" ∷ "T1190" ∷ "T1003.001" ∷ [])).steps
    ≡ 1 ∷ 6 ∷ 12 ∷ []
unfolding reconstruct order_index tactics_of tactic_name lookup insert techniques tactics
intrusion = refl

reconstruct-impact_example :
    ((reconstruct unsorted ("T1486" ∷ "T1190" ∷ [])).reached_impact
      ≡ observed "TA0040" ("T1486" ∷ "T1190" ∷ []))
    × IsRising (reconstruct unsorted ("T1486" ∷ "T1190" ∷ [])).steps
    × ((reconstruct unsorted ("T1486" ∷ "T1190" ∷ [])).stages ≤ 13)
reconstruct-impact_example = reconstruct-impact unsorted ("T1486" ∷ "T1190" ∷ [])
