-- ===== src/Blast/Tests.antt =====
-- The demonstration network of blast_radius.py, and the theorems at it.
use ganglion_oob.Prelude.{ℕ, String, some, true, false, [], ◌≡◌, ◌≢◌, refl, ◌↔◌, eq_iff}
use ganglion_oob.Prelude.Dict.{lookup, insert}
use ganglion_oob.Blast.{
  NetworkModel, BlastRadius, contains, has, targets, add_asset, add_edge, asset_of, compute, search,
  discover, expand, to_decision_criticality,
}
use ganglion_oob.Blast.Reach.{Walk, here, hop}
use ganglion_oob.Blast.Compute.{Shortest, compute-Shortest, compute-crown}

abbrev demo_model : NetworkModel
demo_model =
    let m0 : NetworkModel = record { assets = []; edges = [] } in
    let m1 = add_asset "web-dmz" "normal" "dmz" m0 in
    let m2 = add_asset "app-01" "normal" "app" m1 in
    let m3 = add_asset "app-02" "normal" "app" m2 in
    let m4 = add_asset "db-core" "crown_jewel" "data" m3 in
    let m5 = add_asset "backup" "high" "data" m4 in
    let m6 = add_asset "workstation" "low" "office" m5 in
    let m7 = add_edge "web-dmz" "app-01" true m6 in
    let m8 = add_edge "app-01" "app-02" true m7 in
    let m9 = add_edge "app-02" "db-core" true m8 in
    let m10 = add_edge "db-core" "backup" true m9 in add_edge "workstation" "web-dmz" true m10

demo_declared : has "web-dmz" demo_model.edges ≡ true
unfolding has add_asset add_edge insert lookup
demo_declared = refl

demo_edges :
    (contains "app-01" (targets demo_model "web-dmz") ≡ true)
    × (contains "app-02" (targets demo_model "app-01") ≡ true)
    × (contains "db-core" (targets demo_model "app-02") ≡ true)
unfolding targets add_asset add_edge insert lookup contains
demo_edges = (refl, refl, refl)

demo-Walk : Walk demo_model "web-dmz" 3 "db-core"
demo-Walk = hop (hop (hop here demo_edges.0) demo_edges.1) demo_edges.2

demo_jewel : (asset_of demo_model "db-core").value ≡ "crown_jewel"
unfolding asset_of add_asset add_edge insert lookup
demo_jewel = refl

-- The tool's own self-test.
demo_run :
    (br : BlastRadius) × (compute demo_model "web-dmz" ≡ some br)
    × (br.most_critical ≡ some "db-core")
    × (lookup "db-core" br.reachable ≡ some 3)
    × (br.exposed ≡ 20)
    × (br.total ≡ 22)
unfolding compute search discover expand targets add_asset add_edge insert lookup contains
demo_run = (_, refl, refl, refl, refl, refl)

compute-Shortest_example :
    (br : BlastRadius) × (compute demo_model "web-dmz" ≡ some br)
    × ((a : String) (d : ℕ)
        → (lookup a br.reachable ≡ some d) ↔ ((a ≢ "web-dmz") × Shortest demo_model "web-dmz" a d))
compute-Shortest_example = compute-Shortest demo_model "web-dmz" demo_declared

elsewhere : ◌≢◌ {A = String} "db-core" "web-dmz"
elsewhere e = let same : false ≡ true = (eq_iff "db-core" "web-dmz").1 e in cc same

compute-crown_example :
    (br : BlastRadius) × (compute demo_model "web-dmz" ≡ some br)
    × (to_decision_criticality br ≡ "crown_jewel")
compute-crown_example =
    compute-crown demo_model "web-dmz" demo_declared "db-core" 3 demo-Walk elsewhere demo_jewel
