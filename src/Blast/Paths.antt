-- ===== src/Blast/Paths.antt =====
-- What the search computes: the distances are those of shortest walks, exactly the reachable assets
-- have one, and the path of an asset is a shortest walk.
use mathlib.Core.Path.{subst}
use ganglion_oob.Prelude.{
  ℕ, zero, suc, ◌≤◌, String, some, true, false, List, [], ◌∷◌, ◌++◌, ◌≡◌, refl, sym, inl, inr,
  str_eq, eq_iff, arith, length, length-append,
}
use ganglion_oob.Prelude.Dict.{lookup}
use ganglion_oob.Blast.{NetworkModel, Search, contains, targets, search, start, entries, trace}
use ganglion_oob.Blast.Reach.{Walk, here, hop, Inv}
use ganglion_oob.Blast.Ends.{Outcome, search_total, work, unseen_all-le}

none_queued : (a : String) (q : List String) → q ≡ [] → contains a q ≡ false
unfolding contains
none_queued a q e = rw (e, contains)

module _ (m : NetworkModel) (origin : String) where
  start_sound : (a : String) (d : ℕ) → lookup a (start origin).dist ≡ some d → Walk m origin d a
  unfolding lookup
  start_sound a d found =
      let same : origin ≡ a = ground (arith, eq_iff origin a) in
      let zero_hops : 0 ≡ d = ground (arith, eq_iff origin a) in
      subst (Walk m origin d) same (subst (λ n. Walk m origin n origin) zero_hops here)

  -- Before the first round the origin is queued at distance 0.
  start-Inv : Inv m origin origin [] 0 (origin ∷ []) [] (start origin)
  unfolding contains lookup
  start-Inv = record {
    root = ground (arith, eq_iff origin origin);
    sound = λ a d found. start_sound a d found;
    levels = refl;
    near = (ground (arith, eq_iff origin origin), tt);
    far = tt;
    bound = λ a d found. ground (arith, eq_iff origin a);
    closed = λ a b d found edge. inr (inl (ground (arith, eq_iff origin a, eq_iff a origin)));
    traced = λ a d found. absurd (ground (arith, eq_iff origin a));
  }

  pub search_returns :
      (t : Search) × (search m (suc (suc (entries m.edges))) (start origin) ≡ some t)
      × Outcome m origin t
  unfolding work
  search_returns =
      search_total m origin (suc (suc (entries m.edges))) origin 0 (origin ∷ []) [] (start origin)
        (omega (arith, unseen_all-le (start origin).dist m.edges)) start-Inv

  -- A walk is not shorter than the distance found.
  pub Walk-bound :
      (t : Search)
      → Outcome m origin t
      → {n : ℕ} {a : String} → Walk m origin n a
      → (d : ℕ) × (lookup a t.dist ≡ some d) × (d ≤ n)
  unfolding contains
  Walk-bound t h here = (0, h.inv.root, omega arith)
  Walk-bound t h (hop {n} {a} {b} w edge) =
      let (d, found, le) = Walk-bound t h w in
      elim (h.inv.closed a b d found edge) [
        | inl (e, at_b, near) ↦ (e, at_b, omega arith)
        | inr (inl queued) ↦ absurd (ground (arith, none_queued a t.queue h.empty))
        | inr (inr (same, left)) ↦ absurd (cc left)
      ]

  Walk-zero : {n : ℕ} {a : String} → Walk m origin n a → n ≡ 0 → a ≡ origin
  Walk-zero here e = refl
  Walk-zero (hop w edge) e = absurd (omega arith)

  -- A list of assets from the origin on, each next to the one before, that ends in an asset.
  pub data Route : List String → String → Type 0 where
    alone : Route (origin ∷ []) origin
    extend :
        {p : List String} {a b : String}
        → Route p a
        → contains b (targets m a) ≡ true
        → Route (p ++ b ∷ []) b

  pub trace-Route :
      (t : Search)
      → Outcome m origin t
      → (d : ℕ) (a : String) → lookup a t.dist ≡ some d
      → (p : List String) × (trace (suc d) t.prev origin a ≡ some p)
        × (length p ≡ suc d)
        × Route p a
  unfolding trace
  trace-Route t h zero a found =
      let same = Walk-zero (h.inv.sound a 0 found) refl in
      (
        a ∷ [],
        ground (arith, eq_iff a origin),
        refl,
        subst (λ b. Route (b ∷ []) b) (sym same) alone,
      )
  trace-Route t h (suc d) a found =
      let (p, back, at_p, edge) = h.inv.traced a d found in
      let (out, traced, size, route) = trace-Route t h d p at_p in
      let away : str_eq a origin ≡ false = ground (arith, eq_iff a origin, h.inv.root) in
      (
        out ++ a ∷ [],
        simp (away, back, traced, trace),
        omega (arith, length-append out (a ∷ [])),
        extend route edge,
      )
