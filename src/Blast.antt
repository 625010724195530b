-- ===== src/Blast.antt =====
-- blue_team/blast_radius/blast_radius.py: the declared graph, the breadth-first search from a
-- compromised asset, the score and the criticality handed to the decision engine. The score is kept
-- as its two sums: the exposed weight and the weight of the estate.
pub mod Reach
mod Tests
pub mod Bfs
pub mod Ends
pub mod Paths
pub mod Critical
pub mod Compute
use ganglion_oob.Prelude.{
  ℕ, zero, suc, ◌+◌, ◌*◌, String, Option, none, some, Bool, true, false, not, ◌||◌, List, [], ◌∷◌,
  ◌++◌, map, ltb, leb, length, str_eq, if◌then◌else◌,
}
use ganglion_oob.Prelude.Dict.{Dict, lookup, insert}

-- `x in xs`
unfoldable pub contains : String → List String → Bool
contains x [] = false
contains x (y ∷ ys) = str_eq x y || contains x ys

-- `k in d`
unfoldable pub has {ℓ} : {V : Type ℓ} → String → Dict V → Bool
has k d = elim (lookup k d) [ none ↦ false | some _ ↦ true ]

-- `d.get(k, default)`
unfoldable pub get_or {ℓ} : {V : Type ℓ} → String → V → Dict V → V
get_or k default d = elim (lookup k d) [ none ↦ default | some v ↦ v ]

-- `d.setdefault(k, v)`
unfoldable pub set_default {ℓ} : {V : Type ℓ} → String → V → Dict V → Dict V
unfolding has
set_default k v d = if has k d then d else insert k v d

abbrev pub values : Dict ℕ
values = ("low", 1) ∷ ("normal", 2) ∷ ("high", 5) ∷ ("crown_jewel", 10) ∷ []

pub record Asset : Type 0 where
  pub id : String
  pub value : String
  pub segment : String

unfoldable pub weight : Asset → ℕ
unfolding get_or
weight a = get_or a.value 2 values

pub record NetworkModel : Type 0 where
  pub assets : Dict Asset
  pub edges : Dict (List String)

unfoldable pub add_asset : String → String → String → NetworkModel → NetworkModel
unfolding set_default
add_asset aid value segment m = record m {
  assets = insert aid (record { id = aid; value = value; segment = segment }) m.assets;
  edges = set_default aid [] m.edges;
}

-- The half of `add_edge` that both directions share.
unfoldable pub connect : String → String → Dict (List String) → Dict (List String)
unfolding set_default get_or contains
connect a b edges =
    let declared = set_default a [] edges in
    let targets = get_or a [] declared in
    if contains b targets then declared else insert a (targets ++ b ∷ []) declared

unfoldable pub add_edge : String → String → Bool → NetworkModel → NetworkModel
unfolding connect
add_edge a b bidirectional m =
    let forward = connect a b m.edges in
    record m { edges = if bidirectional then connect b a forward else forward }

-- `model.edges.get(cur, [])`
unfoldable pub targets : NetworkModel → String → List String
unfolding get_or
targets m cur = get_or cur [] m.edges

pub record Search : Type 0 where
  pub dist : Dict ℕ
  pub prev : Dict String
  pub queue : List String

-- The body of the inner loop: `d` is `dist[cur]`.
unfoldable pub discover : String → ℕ → Search → String → Search
unfolding has
discover cur d s nxt = if has nxt s.dist then s else record {
  dist = insert nxt (suc d) s.dist;
  prev = insert nxt cur s.prev;
  queue = s.queue ++ nxt ∷ [];
}

unfoldable pub expand : String → ℕ → Search → List String → Search
expand cur d s [] = s
expand cur d s (nxt ∷ rest) = expand cur d (discover cur d s nxt) rest

-- `while q`, with fuel. `none` is fuel that ran out, or a `KeyError` at `dist[cur]`.
unfoldable pub search : NetworkModel → ℕ → Search → Option Search
search m zero s = none
search m (suc fuel) s = elim s.queue [
  | [] ↦ some s
  | cur ∷ rest ↦ elim (lookup cur s.dist) [
    | none ↦ none
    | some d ↦ search m fuel (expand cur d (record s { queue = rest }) (targets m cur))
  ]
]

abbrev pub start : String → Search
start origin = record { dist = (origin, 0) ∷ []; prev = []; queue = origin ∷ [] }

-- A bound on the nodes that are ever queued: the entries of all edge lists.
unfoldable pub entries : Dict (List String) → ℕ
entries [] = 0
entries ((_, bs) ∷ edges) = length bs + entries edges

-- `_path`, from its end: `none` is fuel that ran out.
unfoldable pub trace : ℕ → Dict String → String → String → Option (List String)
trace zero prev origin target = none
trace (suc fuel) prev origin target =
    if str_eq target origin then some (target ∷ []) else elim (lookup target prev) [
      | none ↦ some (target ∷ [])
      | some p ↦ elim (trace fuel prev origin p) [
        | none ↦ none
        | some out ↦ some (out ++ target ∷ [])
      ]
    ]

-- `{a: d for a, d in dist.items() if a != origin}`
unfoldable pub drop_key : String → Dict ℕ → Dict ℕ
drop_key origin [] = []
drop_key origin ((a, d) ∷ rest) =
    let others = drop_key origin rest in if str_eq a origin then others else (a, d) ∷ others

-- `{a: self._path(prev, origin, a) for a in reachable}`: a path has one node more than its hops.
unfoldable pub all_paths : Dict String → String → Dict ℕ → Dict (Option (List String))
all_paths prev origin [] = []
all_paths prev origin ((a, d) ∷ rest) =
    (a, trace (suc d) prev origin a) ∷ all_paths prev origin rest

-- `model.assets.get(a, Asset(a))`
unfoldable pub asset_of : NetworkModel → String → Asset
unfolding get_or
asset_of m a = get_or a (record { id = a; value = "normal"; segment = "default" }) m.assets

unfoldable pub sum_weights {ℓ} : {V : Type ℓ} → NetworkModel → Dict V → ℕ
unfolding asset_of weight
sum_weights m [] = 0
sum_weights m ((a, _) ∷ rest) = weight (asset_of m a) + sum_weights m rest

-- `or 1`
unfoldable pub total_weight : NetworkModel → ℕ
total_weight m = let total = sum_weights m m.assets in if leb total 0 then 1 else total

-- The loop for the most critical asset: `best` starts at -1, which the first asset beats.
pub record Best : Type 0 where
  pub weight : ℕ
  pub asset : String
  pub value : String

-- `mcv`
unfoldable pub value_of : Option Best → String
value_of none = "none"
value_of (some b) = b.value

unfoldable pub consider : NetworkModel → Option Best → String → Option Best
unfolding asset_of
consider m best a =
    let w = weight (asset_of m a) in
    let this : Option Best =
      some (record { weight = w; asset = a; value = (asset_of m a).value }) in
    elim best [ none ↦ this | some b ↦ if ltb b.weight w then this else some b ]

unfoldable pub most_critical : NetworkModel → Option Best → Dict ℕ → Option Best
most_critical m best [] = best
most_critical m best ((a, _) ∷ rest) = most_critical m (consider m best a) rest

pub record BlastRadius : Type 0 where
  pub origin : String
  pub reachable : Dict ℕ
  pub paths : Dict (Option (List String))
  pub exposed : ℕ
  pub total : ℕ
  pub most_critical : Option String
  pub most_critical_value : String

abbrev pub nothing_reached : String → BlastRadius
nothing_reached origin = record {
  origin = origin;
  reachable = [];
  paths = [];
  exposed = 0;
  total = 1;
  most_critical = none;
  most_critical_value = "none";
}

unfoldable pub summary : NetworkModel → String → Search → BlastRadius
unfolding drop_key value_of most_critical consider all_paths trace sum_weights total_weight
summary m origin s =
    let reachable = drop_key origin s.dist in
    let best = most_critical m none reachable in
    record {
      origin = origin;
      reachable = reachable;
      paths = all_paths s.prev origin reachable;
      exposed = sum_weights m reachable;
      total = total_weight m;
      most_critical = elim best [ none ↦ none | some b ↦ some b.asset ];
      most_critical_value = value_of best;
    }

unfoldable pub compute : NetworkModel → String → Option BlastRadius
unfolding has entries summary
compute m origin =
    if not (has origin m.edges)
    then some (nothing_reached origin)
    else elim (search m (suc (suc (entries m.edges))) (start origin)) [
      | none ↦ none
      | some s ↦ some (summary m origin s)
    ]

-- `br.score >= 0.5` is that twice the exposed weight reaches the total.
unfoldable pub to_decision_criticality : BlastRadius → String
to_decision_criticality br =
    if str_eq br.most_critical_value "crown_jewel" || leb br.total (2 * br.exposed)
    then "crown_jewel"
    else if str_eq br.most_critical_value "high" || leb br.total (4 * br.exposed)
    then "high"
    else "normal"
