-- ===== src/KillChain.antt =====
-- blue_team/killchain_reconstructor/killchain_reconstructor.py: observed techniques in the order of the
-- kill chain. Completeness is kept as the number of stages up to the furthest one, out of thirteen.
pub mod Impact
mod Tests
use ganglion_oob.Prelude.{
  ℕ, zero, suc, ◌+◌, String, Option, none, some, Bool, true, false, ◌||◌, List, [], ◌∷◌, ◌++◌, ltb,
  leb, str_eq, if◌then◌else◌,
}
use ganglion_oob.Prelude.Dict.{Dict, lookup, insert}
use ganglion_oob.Mitre.{Technique, tactics, techniques}

-- `_TACTIC_ORDER`
abbrev pub tactic_order : List String
tactic_order =
    "TA0043" ∷ "TA0001" ∷ "TA0002" ∷ "TA0003" ∷ "TA0004" ∷ "TA0005" ∷ "TA0006" ∷ "TA0007" ∷ "TA0008"
    ∷ "TA0009" ∷ "TA0011" ∷ "TA0010" ∷ "TA0040" ∷ []

unfoldable pub index_from : ℕ → String → List String → Option ℕ
index_from i t [] = none
index_from i t (x ∷ xs) = if str_eq x t then some i else index_from (i + 1) t xs

-- `_ORDER_INDEX.get(t)`
unfoldable pub order_index : String → Option ℕ
unfolding index_from
order_index t = index_from 0 t tactic_order

-- `x in xs`
unfoldable pub mem : String → List String → Bool
mem x [] = false
mem x (y ∷ ys) = str_eq x y || mem x ys

abbrev pub bucket : String → Dict (List String) → List String
bucket t groups = elim (lookup t groups) [ none ↦ [] | some tids ↦ tids ]

-- `by_tactic.setdefault(ta, [])`, and the append of an id that is not there.
unfoldable pub add_to : String → String → Dict (List String) → Dict (List String)
unfolding mem
add_to tid t groups =
    let tids = bucket t groups in insert t (if mem tid tids then tids else tids ++ tid ∷ []) groups

-- The loop over the tactics of a technique.
unfoldable pub add_tactics : String → List String → Dict (List String) → Dict (List String)
unfolding add_to
add_tactics tid [] groups = groups
add_tactics tid (t ∷ ts) groups =
    add_tactics tid ts (elim (order_index t) [ none ↦ groups | some _ ↦ add_to tid t groups ])

-- The tactics of an id, none for one that is not in the catalogue.
unfoldable pub tactics_of : String → List String
tactics_of tid = elim (lookup tid techniques) [ none ↦ [] | some x ↦ x.tactics ]

unfoldable pub group : List String → Dict (List String) → Dict (List String)
unfolding add_tactics
group [] groups = groups
group (tid ∷ tids) groups = group tids (add_tactics tid (tactics_of tid) groups)

pub record ChainStep : Type 0 where
  pub tactic_id : String
  pub tactic_name : String
  pub order : ℕ
  pub techniques : List String

pub record KillChain : Type 0 where
  pub steps : List ChainStep
  pub stages : ℕ
  pub furthest_stage : String
  pub reached_impact : Bool

-- `_tactic_name`
unfoldable pub tactic_name : String → String
tactic_name t = elim (lookup t tactics) [ none ↦ t | some name ↦ name ]

-- `steps.sort(key=lambda s: s.order)`
unfoldable pub place : ChainStep → List ChainStep → List ChainStep
place s [] = s ∷ []
place s (x ∷ xs) = let rest = place s xs in if leb s.order x.order then s ∷ x ∷ xs else x ∷ rest

unfoldable pub sort_steps : List ChainStep → List ChainStep
unfolding place
sort_steps [] = []
sort_steps (s ∷ l) = place s (sort_steps l)

-- `max(steps, key=lambda s: s.order)`: the first of the greatest order.
unfoldable pub furthest_of : ChainStep → List ChainStep → ChainStep
furthest_of best [] = best
furthest_of best (s ∷ l) = furthest_of (if ltb best.order s.order then s else best) l

unfoldable pub chain_of : List ChainStep → KillChain
unfolding furthest_of
chain_of [] = record { steps = []; stages = 0; furthest_stage = "none"; reached_impact = false }
chain_of (s ∷ l) =
    let furthest = furthest_of s l in
    record {
      steps = s ∷ l;
      stages = furthest.order + 1;
      furthest_stage = furthest.tactic_name;
      reached_impact = str_eq furthest.tactic_id "TA0040";
    }

-- `sorted` is Python's sorting of texts.
module _ (sorted : List String → List String) where
  abbrev pub step_for : String → ℕ → List String → ChainStep
  step_for t order tids = record {
    tactic_id = t;
    tactic_name = tactic_name t;
    order = order;
    techniques = sorted tids;
  }

  -- Only tactics with an order were grouped.
  unfoldable pub steps_of : Dict (List String) → List ChainStep
  steps_of [] = []
  steps_of ((t, tids) ∷ groups) =
      let rest = steps_of groups in
      elim (order_index t) [ none ↦ rest | some i ↦ step_for t i tids ∷ rest ]

  unfoldable pub reconstruct : List String → KillChain
  unfolding group steps_of sort_steps chain_of
  reconstruct technique_ids = chain_of (sort_steps (steps_of (group technique_ids [])))
