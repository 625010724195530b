-- ===== src/Blast/Critical.antt =====
-- The most critical asset is one of greatest weight, and a reachable crown jewel is never missed.
use mathlib.Core.Path.{subst}
use ganglion_oob.Prelude.{
  ℕ, ◌≤◌, String, Option, none, some, [], ◌∷◌, ◌≡◌, refl, ◌∙◌, inl, inr, ltb, str_eq, eq_iff, arith,
  Bool-cases,
}
use ganglion_oob.Prelude.Dict.{Dict, lookup}
use ganglion_oob.Blast.{
  NetworkModel, Search, Asset, Best, weight, get_or, asset_of, consider, most_critical, summary,
  drop_key, value_of, to_decision_criticality,
}

abbrev pub AtLeast : Option Best → ℕ → Type 0
AtLeast none w = ⊥
AtLeast (some b) w = w ≤ b.weight

-- The weight and the value kept are those of the asset kept.
abbrev pub OfAsset : NetworkModel → Option Best → Type 0
OfAsset m none = Unit
OfAsset m (some b) =
    (b.weight ≡ weight (asset_of m b.asset)) × (b.value ≡ (asset_of m b.asset).value)

module _ (m : NetworkModel) where
  consider-keep :
      (best : Option Best) (a : String) (w : ℕ) → AtLeast best w → AtLeast (consider m best a) w
  unfolding consider
  consider-keep none a w h = absurd h
  consider-keep (some b) a w h = elim (Bool-cases (ltb b.weight (weight (asset_of m a)))) [
    | inl e ↦ rw e (ground arith)
    | inr e ↦ rw e h
  ]

  consider-AtLeast :
      (best : Option Best) (a : String) → AtLeast (consider m best a) (weight (asset_of m a))
  unfolding consider
  consider-AtLeast none a = omega arith
  consider-AtLeast (some b) a = elim (Bool-cases (ltb b.weight (weight (asset_of m a)))) [
    | inl e ↦ rw e (omega arith)
    | inr e ↦ rw e (ground arith)
  ]

  consider-OfAsset :
      (best : Option Best) (a : String) → OfAsset m best → OfAsset m (consider m best a)
  unfolding consider
  consider-OfAsset none a h = (refl, refl)
  consider-OfAsset (some b) a h = elim (Bool-cases (ltb b.weight (weight (asset_of m a)))) [
    | inl e ↦ rw e (refl, refl)
    | inr e ↦ rw e h
  ]

  keep_all :
      (best : Option Best) (rest : Dict ℕ) (w : ℕ)
      → AtLeast best w
      → AtLeast (most_critical m best rest) w
  unfolding most_critical
  keep_all best [] w h = h
  keep_all best ((a, _) ∷ rest) w h = keep_all (consider m best a) rest w (consider-keep best a w h)

  pub most_critical-OfAsset :
      (best : Option Best) (rest : Dict ℕ) → OfAsset m best → OfAsset m (most_critical m best rest)
  unfolding most_critical
  most_critical-OfAsset best [] h = h
  most_critical-OfAsset best ((a, _) ∷ rest) h =
      most_critical-OfAsset (consider m best a) rest (consider-OfAsset best a h)

  pub most_critical-AtLeast :
      (best : Option Best) (rest : Dict ℕ) (a : String) (d : ℕ)
      → lookup a rest ≡ some d
      → AtLeast (most_critical m best rest) (weight (asset_of m a))
  unfolding most_critical lookup
  most_critical-AtLeast best [] a d found = absurd (cc found)
  most_critical-AtLeast best ((j, e) ∷ rest) a d found = elim (Bool-cases (str_eq j a)) [
    | inl t ↦
        let same : j ≡ a = (eq_iff j a).0 t in
        let here =
          subst (λ i. AtLeast (consider m best j) (weight (asset_of m i))) same
            (consider-AtLeast best j) in
        keep_all (consider m best j) rest (weight (asset_of m a)) here
    | inr t ↦ most_critical-AtLeast (consider m best j) rest a d (rw t at found)
  ]

-- Only a crown jewel has the greatest weight.
pub weight-crown : (x : Asset) → 10 ≤ weight x → x.value ≡ "crown_jewel"
unfolding weight get_or lookup
weight-crown x h = ground (
  arith,
  eq_iff "low" x.value,
  eq_iff "normal" x.value,
  eq_iff "high" x.value,
  eq_iff "crown_jewel" x.value,
)

pub crown-weight : (x : Asset) → x.value ≡ "crown_jewel" → weight x ≡ 10
unfolding weight get_or lookup
crown-weight x h = rw h (refl)

crown_best :
    (m : NetworkModel) (best : Option Best)
    → OfAsset m best
    → AtLeast best 10
    → value_of best ≡ "crown_jewel"
unfolding value_of
crown_best m none of_asset h = absurd h
crown_best m (some b) of_asset h = of_asset.1 ∙ weight-crown (asset_of m b.asset) (omega arith)

pub summary-crown :
    (m : NetworkModel) (origin a : String) (d : ℕ) (s : Search)
    → lookup a (drop_key origin s.dist) ≡ some d
    → (asset_of m a).value ≡ "crown_jewel"
    → to_decision_criticality (summary m origin s) ≡ "crown_jewel"
unfolding summary to_decision_criticality
summary-crown m origin a d s found jewel =
    let reachable = drop_key origin s.dist in
    let best = most_critical m none reachable in
    let heavy : AtLeast best 10 =
      subst (AtLeast best) (crown-weight (asset_of m a) jewel)
        (most_critical-AtLeast m none reachable a d found) in
    rw (crown_best m best (most_critical-OfAsset m none reachable tt) heavy) refl
