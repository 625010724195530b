-- ===== src/Blast/Compute.antt =====
-- What `compute` returns.
use ganglion_oob.Prelude.{
  ℕ, suc, ◌≤◌, String, none, some, true, List, [], ◌∷◌, ◌≡◌, ◌≢◌, refl, ap, ◌∙◌, ◌↔◌, inl, inr,
  if◌then◌else◌, str_eq, eq_iff, arith, length, Bool-cases,
}
use ganglion_oob.Prelude.Dict.{Dict, lookup}
use ganglion_oob.Blast.{
  NetworkModel, Search, BlastRadius, has, entries, search, start, trace, drop_key, all_paths,
  asset_of, summary, compute, to_decision_criticality,
}
use ganglion_oob.Blast.Reach.{Walk, one_distance}
use ganglion_oob.Blast.Paths.{search_returns, Walk-bound, Route, trace-Route}
use ganglion_oob.Blast.Critical.{summary-crown}

lookup-drop_key :
    (o a : String) (d : Dict ℕ)
    → lookup a (drop_key o d) ≡ (if str_eq o a then none else lookup a d)
unfolding drop_key lookup
lookup-drop_key o a [] = ground arith
lookup-drop_key o a ((j, n) ∷ d) =
    ground (arith, eq_iff j o, eq_iff j a, eq_iff o a, lookup-drop_key o a d)

lookup-all_paths :
    (prev : Dict String) (o a : String) (d : ℕ) (r : Dict ℕ)
    → lookup a r ≡ some d
    → lookup a (all_paths prev o r) ≡ some (trace (suc d) prev o a)
unfolding all_paths lookup
lookup-all_paths prev o a d [] h = absurd (cc h)
lookup-all_paths prev o a d ((j, n) ∷ r) h = elim (Bool-cases (str_eq j a)) [
  | inl e ↦
      let same : some n ≡ some d = rw e at h in
      rw e (
        ap some (
          ap (λ k. trace (suc k) prev o j) (cc same)
          ∙ ap (trace (suc d) prev o) ((eq_iff j a).0 e)))
  | inr e ↦ rw (e) (lookup-all_paths prev o a d r (rw e at h))
]

-- A shortest distance: a walk of that many hops, and none shorter.
abbrev pub Shortest : NetworkModel → String → String → ℕ → Type 0
Shortest m origin a d = Walk m origin d a × ((n : ℕ) → Walk m origin n a → d ≤ n)

module _ (m : NetworkModel) (origin : String) (declared : has origin m.edges ≡ true) where
  found_by :
      (s : Search)
      → search m (suc (suc (entries m.edges))) (start origin) ≡ some s
      → compute m origin ≡ some (summary m origin s)
  unfolding compute
  found_by s e = simp (declared, e)

  -- From a declared asset the computation returns, and an asset is reported at distance `d` exactly
  -- if it is another asset and `d` hops are the least that a walk to it takes.
  pub compute-Shortest :
      (br : BlastRadius) × (compute m origin ≡ some br)
      × ((a : String) (d : ℕ)
          → (lookup a br.reachable ≡ some d) ↔ ((a ≢ origin) × Shortest m origin a d))
  unfolding summary
  compute-Shortest =
      let (t, e, h) = search_returns m origin in
      (
        summary m origin t,
        found_by t e,
        λ a d. (
          λ found.
              let at_a : lookup a t.dist ≡ some d =
                ground (arith, lookup-drop_key origin a t.dist) in
              (
                λ same. ground (arith, lookup-drop_key origin a t.dist, eq_iff origin a),
                (
                  h.inv.sound a d at_a,
                  λ n w.
                      let (k, at_k, le) = Walk-bound m origin t h w in
                      omega (arith, one_distance t.dist a a d k refl at_a at_k),
                ),
              ),
          λ (away, (w, least)).
              let (k, at_k, le) = Walk-bound m origin t h w in
              let longer = least k (h.inv.sound a k at_k) in
              let same : k ≡ d = omega arith in
              ground (arith, lookup-drop_key origin a t.dist, eq_iff origin a),
        ),
      )

  -- From a declared asset the computation returns, and an asset that is reported at distance `d` has a
  -- path of `d + 1` assets that starts at the origin, follows declared edges and ends in that asset.
  pub compute-Route :
      (br : BlastRadius) × (compute m origin ≡ some br)
      × ((a : String) (d : ℕ)
          → lookup a br.reachable ≡ some d
          → (p : List String) × (lookup a br.paths ≡ some (some p))
            × (length p ≡ suc d)
            × Route m origin p a)
  unfolding summary
  compute-Route =
      let (t, e, h) = search_returns m origin in
      (
        summary m origin t,
        found_by t e,
        λ a d found.
            let at_a : lookup a t.dist ≡ some d = ground (arith, lookup-drop_key origin a t.dist) in
            let (p, traced, size, route) = trace-Route m origin t h d a at_a in
            (p, lookup-all_paths t.prev origin a d _ found ∙ ap some traced, size, route),
      )

  -- If any walk from a declared asset leads to another asset that is a crown jewel, the computation
  -- returns and the criticality handed to the decision engine is crown_jewel.
  pub compute-crown :
      (a : String) (n : ℕ)
      → Walk m origin n a
      → a ≢ origin
      → (asset_of m a).value ≡ "crown_jewel"
      → (br : BlastRadius) × (compute m origin ≡ some br)
        × (to_decision_criticality br ≡ "crown_jewel")
  compute-crown a n w away jewel =
      let (t, e, h) = search_returns m origin in
      let (d, at_a, le) = Walk-bound m origin t h w in
      (
        summary m origin t,
        found_by t e,
        summary-crown m origin a d t
            (ground (arith, lookup-drop_key origin a t.dist, eq_iff origin a)) jewel,
      )
