-- ===== src/Blast/Ends.antt =====
-- The breadth-first search ends: each round takes one asset from the queue, and an asset that is
-- queued uses up an entry of the edge lists.
use ganglion_oob.Prelude.{
  ℕ, zero, suc, ◌+◌, ◌≤◌, ◌<◌, String, some, true, false, ◌||◌, List, [], ◌∷◌, ◌≡◌, refl, ap, ◌⊎◌,
  inl, inr, if◌then◌else◌, str_eq, eq_iff, arith, length, length-append, Bool-cases, Option-cases,
}
use ganglion_oob.Prelude.Dict.{Dict, lookup, insert, lookup-insert}
use ganglion_oob.Blast.{
  NetworkModel, Search, contains, has, get_or, targets, discover, expand, search, entries,
}
use ganglion_oob.Blast.Reach.{Inv}
use ganglion_oob.Blast.Bfs.{expand-Inv, pop-Inv}

-- The entries of an edge list whose asset is not found.
unseen : Dict ℕ → List String → ℕ
unseen dist [] = 0
unseen dist (b ∷ bs) = (if has b dist then 0 else 1) + unseen dist bs

pub unseen_all : Dict ℕ → Dict (List String) → ℕ
unseen_all dist [] = 0
unseen_all dist ((_, bs) ∷ edges) = unseen dist bs + unseen_all dist edges

has-insert : (k j : String) (v : ℕ) (d : Dict ℕ) → has j (insert k v d) ≡ (str_eq k j || has j d)
unfolding has
has-insert k j v d = ground (arith, lookup-insert k j v d)

module _ (nxt : String) (v : ℕ) (dist : Dict ℕ) where
  unseen-insert : (bs : List String) → unseen (insert nxt v dist) bs ≤ unseen dist bs
  unfolding unseen
  unseen-insert [] = omega arith
  unseen-insert (b ∷ bs) = ground (arith, has-insert nxt b v dist, unseen-insert bs)

  unseen-insert_lt :
      (bs : List String)
      → has nxt dist ≡ false
      → contains nxt bs ≡ true
      → suc (unseen (insert nxt v dist) bs) ≤ unseen dist bs
  unfolding unseen contains
  unseen-insert_lt [] new h = absurd (cc h)
  unseen-insert_lt (b ∷ bs) new h =
      ground (arith, has-insert nxt b v dist, unseen-insert bs, unseen-insert_lt bs, eq_iff nxt b)

  unseen_all-insert :
      (e : Dict (List String)) → unseen_all (insert nxt v dist) e ≤ unseen_all dist e
  unfolding unseen_all
  unseen_all-insert [] = omega arith
  unseen_all-insert ((_, bs) ∷ e) = omega (arith, unseen-insert bs, unseen_all-insert e)

  unseen_all-insert_lt :
      (k : String) (bs : List String) (e : Dict (List String))
      → has nxt dist ≡ false
      → lookup k e ≡ some bs
      → contains nxt bs ≡ true
      → suc (unseen_all (insert nxt v dist) e) ≤ unseen_all dist e
  unfolding unseen_all lookup
  unseen_all-insert_lt k bs [] new found h = absurd (cc found)
  unseen_all-insert_lt k bs ((j, cs) ∷ e) new found h = elim (Bool-cases (str_eq j k)) [
    | inl t ↦
        let same : some cs ≡ some bs = rw t at found in
        let inside : contains nxt cs ≡ true = cc (h, same) in
        omega (arith, unseen-insert_lt cs new inside, unseen_all-insert e)
    | inr t ↦ omega (arith, unseen-insert cs, unseen_all-insert_lt k bs e new (rw t at found) h)
  ]

unseen-le : (dist : Dict ℕ) (bs : List String) → unseen dist bs ≤ length bs
unfolding unseen
unseen-le dist [] = omega arith
unseen-le dist (b ∷ bs) = ground (arith, unseen-le dist bs)

pub unseen_all-le : (dist : Dict ℕ) (e : Dict (List String)) → unseen_all dist e ≤ entries e
unfolding unseen_all entries
unseen_all-le dist [] = omega arith
unseen_all-le dist ((_, bs) ∷ e) = omega (arith, unseen-le dist bs, unseen_all-le dist e)

targets-lookup :
    (m : NetworkModel) (a b : String)
    → contains b (targets m a) ≡ true
    → (bs : List String) × (lookup a m.edges ≡ some bs) × (contains b bs ≡ true)
unfolding targets get_or contains
targets-lookup m a b h = elim (Option-cases (lookup a m.edges)) [
  | inl e ↦ ground arith
  | inr (bs, e) ↦ (bs, e, ground arith)
]

unfoldable pub work : NetworkModel → Search → ℕ
work m s = length s.queue + unseen_all s.dist m.edges

discover-work :
    (m : NetworkModel) (cur nxt : String) (d : ℕ) (s : Search)
    → contains nxt (targets m cur) ≡ true
    → work m (discover cur d s nxt) ≤ work m s
unfolding work discover
discover-work m cur nxt d s edge = elim (Bool-cases (has nxt s.dist)) [
  | inl old ↦ rw (old, discover) (omega arith)
  | inr new ↦
      let (bs, found, inside) = targets-lookup m cur nxt edge in
      rw (new, discover)
        (omega (
          arith,
          length-append s.queue (nxt ∷ []),
          unseen_all-insert_lt nxt (suc d) s.dist cur bs m.edges new found inside,
        ))
]

expand-work :
    (m : NetworkModel) (cur : String) (d : ℕ) (rest : List String) (s : Search)
    → ((b : String) → contains b rest ≡ true → contains b (targets m cur) ≡ true)
    → work m (expand cur d s rest) ≤ work m s
unfolding expand contains
expand-work m cur d [] s sub = omega arith
expand-work m cur d (nxt ∷ rest) s sub =
    let later = λ (b : String) (e : contains b rest ≡ true). sub b (ground arith) in
    omega (
      arith,
      discover-work m cur nxt d s (sub nxt (ground (arith, eq_iff nxt nxt))),
      expand-work m cur d rest (discover cur d s nxt) later,
    )

queue-cases : (q : List String) → (q ≡ []) ⊎ ((a : String) × (rest : List String) × (q ≡ a ∷ rest))
queue-cases [] = inl refl
queue-cases (a ∷ rest) = inr (a, rest, refl)

-- An invariant that holds at the start, with enough fuel, holds of the result, whose queue is empty.
pub record Outcome (m : NetworkModel) (origin : String) (t : Search) : Type 0 where
  pub level : ℕ
  pub done : String
  pub near : List String
  pub far : List String
  pub inv : Inv m origin done [] level near far t
  pub empty : t.queue ≡ []

pub search_total :
    (m : NetworkModel) (origin : String) (fuel : ℕ) (old : String) (lo : ℕ) (xs ys : List String)
    (s : Search)
    → work m s < fuel
    → Inv m origin old [] lo xs ys s
    → (t : Search) × (search m fuel s ≡ some t) × Outcome m origin t
unfolding search work
search_total m origin zero old lo xs ys s less h = absurd (omega arith)
search_total m origin (suc fuel) old lo xs ys s less h = elim (queue-cases s.queue) [
  | inl empty ↦ (
    s,
    simp (empty, search),
    record { level = lo; done = old; near = xs; far = ys; inv = h; empty = empty },
  )
  | inr (cur, rest, e) ↦
      let (l, zs, ws, inv, at_cur) = pop-Inv m origin old cur lo xs ys rest s e h in
      let s' = record s { queue = rest } in
      let (ws', inv') = expand-Inv m origin cur l zs (targets m cur) ws s' (λ b x. x) at_cur inv in
      let smaller = expand-work m cur l (targets m cur) s' (λ b x. x) in
      let (t, ends, out) =
        search_total m origin fuel cur l zs ws' (expand cur l s' (targets m cur))
          (omega (arith, ap length e)) inv' in
      (t, simp (e, at_cur, search) ends, out)
]
