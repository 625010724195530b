-- ===== src/Blast/Reach.antt =====
-- Walks through the declared graph, and the invariant of the breadth-first search: the queue holds
-- assets at one distance and then assets one hop further.
use ganglion_oob.Prelude.{
  ℕ, suc, ◌≤◌, String, none, some, true, false, ◌||◌, List, [], ◌∷◌, ◌++◌, ◌≡◌, refl, ◌⊎◌, inl, inr,
  str_eq, eq_iff, arith, All, Bool-cases, Option-cases,
}
use ganglion_oob.Prelude.Dict.{Dict, lookup, insert, lookup-insert}
use ganglion_oob.Blast.{NetworkModel, Search, contains, has, targets}

-- A walk of `n` hops from the origin.
pub data Walk (m : NetworkModel) (origin : String) : ℕ → String → Type 0 where
  here : Walk m origin 0 origin
  hop :
      {n : ℕ} {a b : String}
      → Walk m origin n a
      → contains b (targets m a) ≡ true
      → Walk m origin (suc n) b

pub contains-append :
    (a : String) (xs ys : List String) → contains a (xs ++ ys) ≡ (contains a xs || contains a ys)
unfolding contains
contains-append a [] ys = refl
contains-append a (x ∷ xs) ys = ground (arith, contains-append a xs ys)

pub has-none {ℓ} : {V : Type ℓ} (k : String) (d : Dict V) → has k d ≡ false → lookup k d ≡ none
unfolding has
has-none k d h = ground arith

pub has-some {ℓ} :
    {V : Type ℓ} (k : String) (d : Dict V) → has k d ≡ true → (v : V) × (lookup k d ≡ some v)
unfolding has
has-some k d h = elim (Option-cases (lookup k d)) [ inl e ↦ ground arith | inr found ↦ found ]

-- What an insertion at a key that is not there keeps, and what it adds.
module _ {ℓ} {V : Type ℓ} (k : String) (v : V) (d : Dict V) where
  pub lookup-insert_new :
      (j : String) (w : V)
      → lookup k d ≡ none
      → lookup j d ≡ some w
      → lookup j (insert k v d) ≡ some w
  lookup-insert_new j w fresh h = ground (arith, lookup-insert k j v d, eq_iff k j)

  pub lookup-insert_inv :
      (j : String) (w : V)
      → lookup j (insert k v d) ≡ some w
      → (lookup j d ≡ some w) ⊎ ((k ≡ j) × (v ≡ w))
  lookup-insert_inv j w h = elim (Bool-cases (str_eq k j)) [
    | inl e ↦ inr ((eq_iff k j).0 e, ground (arith, lookup-insert k j v d))
    | inr e ↦ inl (ground (arith, lookup-insert k j v d))
  ]

  pub lookup-insert_at : lookup k (insert k v d) ≡ some v
  lookup-insert_at = ground (arith, lookup-insert k k v d, eq_iff k k)

-- An asset has one distance.
pub one_distance :
    (dist : Dict ℕ) (a b : String) (d e : ℕ)
    → a ≡ b
    → lookup a dist ≡ some d
    → lookup b dist ≡ some e
    → d ≡ e
one_distance dist a b d e same p q = cc

-- Found at most one hop beyond `d`.
abbrev pub Settled : Dict ℕ → ℕ → String → Type 0
Settled dist d b = (e : ℕ) × (lookup b dist ≡ some e) × (e ≤ suc d)

-- An edge of the graph either is settled, or waits: its source is queued, or is the asset that is
-- expanded and the edge is among those left.
abbrev pub EdgeState : Search → String → List String → ℕ → String → String → Type 0
EdgeState s cur rest d a b =
    Settled s.dist d b ⊎ (contains a s.queue ≡ true) ⊎ ((a ≡ cur) × (contains b rest ≡ true))

-- The asset before `a` on its path, one hop nearer.
abbrev pub Traced : NetworkModel → Search → ℕ → String → Type 0
Traced m s d a =
    (p : String) × (lookup a s.prev ≡ some p)
    × (lookup p s.dist ≡ some d)
    × (contains a (targets m p) ≡ true)

-- `cur` at distance `lo` is being expanded and `rest` are its edges left; `xs` and `ys` are the two
-- levels of the queue.
pub record Inv (m : NetworkModel) (origin cur : String) (rest : List String) (lo : ℕ)
    (xs ys : List String) (s : Search) : Type 0 where
  pub root : lookup origin s.dist ≡ some 0
  pub sound : (a : String) (d : ℕ) → lookup a s.dist ≡ some d → Walk m origin d a
  pub levels : s.queue ≡ xs ++ ys
  pub near : All (λ a. lookup a s.dist ≡ some lo) xs
  pub far : All (λ a. lookup a s.dist ≡ some (suc lo)) ys
  pub bound : (a : String) (d : ℕ) → lookup a s.dist ≡ some d → d ≤ suc lo
  pub closed :
      (a b : String) (d : ℕ)
      → lookup a s.dist ≡ some d
      → contains b (targets m a) ≡ true
      → EdgeState s cur rest d a b
  pub traced : (a : String) (d : ℕ) → lookup a s.dist ≡ some (suc d) → Traced m s d a
