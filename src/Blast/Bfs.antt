-- ===== src/Blast/Bfs.antt =====
-- The breadth-first search keeps its invariant.
use mathlib.Core.Path.{subst}
use ganglion_oob.Prelude.{
  ℕ, suc, String, none, some, true, false, List, [], ◌∷◌, ◌++◌, ◌≡◌, refl, sym, ◌∙◌, inl, inr,
  str_eq, eq_iff, arith, All-append, All-map, Bool-cases,
}
use ganglion_oob.Prelude.Dict.{lookup, insert, lookup-insert}
use ganglion_oob.Blast.{NetworkModel, Search, contains, has, targets, discover, expand}
use ganglion_oob.Blast.Reach.{
  Walk, hop, contains-append, has-none, has-some, lookup-insert_new, lookup-insert_inv,
  lookup-insert_at, one_distance, Inv,
}
use mathlib.Core.List.{append_assoc, append-nil}

module _ (m : NetworkModel) (origin cur : String) (lo : ℕ) (xs : List String) where
  -- An edge to an asset that is found already.
  skip :
      (nxt : String) (rest ys : List String) (s : Search)
      → has nxt s.dist ≡ true
      → lookup cur s.dist ≡ some lo
      → Inv m origin cur (nxt ∷ rest) lo xs ys s
      → Inv m origin cur rest lo xs ys s
  unfolding contains
  skip nxt rest ys s old at_lo h = record {
    root = h.root;
    sound = h.sound;
    levels = h.levels;
    near = h.near;
    far = h.far;
    bound = h.bound;
    traced = h.traced;
    closed = λ a b d found edge. elim (h.closed a b d found edge) [
      | inl settled ↦ inl settled
      | inr (inl queued) ↦ inr (inl queued)
      | inr (inr (same, left)) ↦ elim (Bool-cases (str_eq b nxt)) [
        | inl e ↦
            let (v, seen) = has-some nxt s.dist old in
            inl (
              v,
              subst (λ c. lookup c s.dist ≡ some v) (sym ((eq_iff b nxt).0 e)) seen,
              omega (arith, h.bound nxt v seen, one_distance s.dist a cur d lo same found at_lo),
            )
        | inr e ↦ inr (inr (same, ground arith))
      ]
    ];
  }

  found_new :
      (nxt : String) (rest ys : List String) (s : Search)
      → has nxt s.dist ≡ false
      → lookup cur s.dist ≡ some lo
      → contains nxt (targets m cur) ≡ true
      → Inv m origin cur (nxt ∷ rest) lo xs ys s
      → Inv m origin cur rest lo xs (ys ++ nxt ∷ []) (discover cur lo s nxt)
  unfolding contains discover
  found_new nxt rest ys s new at_lo edge h =
      let fresh : lookup nxt s.dist ≡ none = has-none nxt s.dist new in
      let keep = lookup-insert_new nxt (suc lo) s.dist in
      let add = lookup-insert_at nxt (suc lo) s.dist in
      let inv = lookup-insert_inv nxt (suc lo) s.dist in
      rw new record {
        root = keep origin 0 fresh h.root;
        sound = λ a d found. elim (inv a d found) [
          | inl old ↦ h.sound a d old
          | inr (e, l) ↦
              subst (λ b. Walk m origin d b) e
                (subst (λ k. Walk m origin k nxt) l (hop (h.sound cur lo at_lo) edge))
        ];
        levels = rw (h.levels) (append_assoc xs ys (nxt ∷ []));
        near = All-map _ _ xs (λ a p. keep a lo fresh p) h.near;
        far =
            All-append _ ys (nxt ∷ []) (All-map _ _ ys (λ a p. keep a (suc lo) fresh p) h.far)
              (add, tt);
        bound = λ a d found. elim (inv a d found) [
          | inl old ↦ h.bound a d old
          | inr (e, l) ↦ omega arith
        ];
        traced = λ a d found. elim (inv a (suc d) found) [
          | inl old ↦
              let (p, prev_a, near_p, edge_p) = h.traced a d old in
              (
                p,
                ground (arith, lookup-insert nxt a cur s.prev, eq_iff nxt a),
                keep p d fresh near_p,
                edge_p,
              )
          | inr (e, l) ↦
              let same : lo ≡ d = omega arith in
              (
                cur,
                ground (arith, lookup-insert nxt a cur s.prev, eq_iff nxt a),
                keep cur d fresh (subst (λ n. lookup cur s.dist ≡ some n) same at_lo),
                subst (λ b. contains b (targets m cur) ≡ true) e edge,
              )
        ];
        closed = λ a b d found edge'. elim (inv a d found) [
          | inl old ↦ elim (h.closed a b d old edge') [
            | inl (e, place, le) ↦ inl (e, keep b e fresh place, le)
            | inr (inl queued) ↦ inr (inl (rw (contains-append a s.queue (nxt ∷ []), queued) refl))
            | inr (inr (same, left)) ↦ elim (Bool-cases (str_eq b nxt)) [
              | inl t ↦ inl (
                suc lo,
                subst (λ c. lookup c (insert nxt (suc lo) s.dist) ≡ some (suc lo))
                    (sym ((eq_iff b nxt).0 t)) add,
                omega (arith, one_distance s.dist a cur d lo same old at_lo),
              )
              | inr t ↦ inr (inr (same, (ground arith)))
            ]
          ]
          | inr (e, l) ↦
              inr (inl (ground (arith, contains-append a s.queue (nxt ∷ []), eq_iff a nxt)))
        ];
      }

  found_new-at :
      (nxt : String) (s : Search)
      → has nxt s.dist ≡ false
      → lookup cur s.dist ≡ some lo
      → lookup cur (discover cur lo s nxt).dist ≡ some lo
  unfolding discover
  found_new-at nxt s new at_lo =
      rw new (lookup-insert_new nxt (suc lo) s.dist cur lo (has-none nxt s.dist new) at_lo)

  -- All edges of the asset that is expanded.
  pub expand-Inv :
      (rest ys : List String) (s : Search)
      → ((b : String) → contains b rest ≡ true → contains b (targets m cur) ≡ true)
      → lookup cur s.dist ≡ some lo
      → Inv m origin cur rest lo xs ys s
      → (zs : List String) × Inv m origin cur [] lo xs zs (expand cur lo s rest)
  unfolding expand contains discover
  expand-Inv [] ys s sub at_lo h = (ys, h)
  expand-Inv (nxt ∷ rest) ys s sub at_lo h =
      let later = λ (b : String) (e : contains b rest ≡ true). sub b (ground arith) in
      elim (Bool-cases (has nxt s.dist)) [
        | inl old ↦ rw old (expand-Inv rest ys s later at_lo (skip nxt rest ys s old at_lo h))
        | inr new ↦
            let edge = sub nxt (ground (arith, eq_iff nxt nxt)) in
            expand-Inv rest (ys ++ nxt ∷ []) (discover cur lo s nxt) later
              (found_new-at nxt s new at_lo) (found_new nxt rest ys s new at_lo edge h)
      ]

module _ (m : NetworkModel) (origin : String) where
  -- The nearer level is used up.
  shift :
      (cur : String) (lo : ℕ) (ys : List String) (s : Search)
      → Inv m origin cur [] lo [] ys s
      → Inv m origin cur [] (suc lo) ys [] s
  shift cur lo ys s h = record {
    root = h.root;
    sound = h.sound;
    levels = h.levels ∙ sym (append-nil ys);
    near = h.far;
    far = tt;
    bound = λ a d found. omega (arith, h.bound a d found);
    closed = h.closed;
    traced = h.traced;
  }

  pop_near :
      (old cur x : String) (lo : ℕ) (xs ys rest : List String) (s : Search)
      → s.queue ≡ cur ∷ rest
      → Inv m origin old [] lo (x ∷ xs) ys s
      → Inv m origin cur (targets m cur) lo xs ys (record s { queue = rest })
        × (lookup cur s.dist ≡ some lo)
  unfolding contains
  pop_near old cur x lo xs ys rest s e h =
      let both : cur ∷ rest ≡ x ∷ (xs ++ ys) = sym e ∙ h.levels in
      let first : cur ≡ x = cc both in
      let inv : Inv m origin cur (targets m cur) lo xs ys (record s { queue = rest }) = record {
        root = h.root;
        sound = h.sound;
        levels = cc both;
        near = h.near.1;
        far = h.far;
        bound = h.bound;
        closed = λ a b d found edge. elim (h.closed a b d found edge) [
          | inl settled ↦ inl settled
          | inr (inr (same, left)) ↦ absurd (cc left)
          | inr (inl queued) ↦ elim (Bool-cases (str_eq a cur)) [
            | inl t ↦
                let same : a ≡ cur = (eq_iff a cur).0 t in
                inr (inr (same, subst (λ c. contains b (targets m c) ≡ true) same edge))
            | inr t ↦
                let split : contains a (cur ∷ rest) ≡ true =
                  subst (λ q. contains a q ≡ true) e queued in
                inr (inl (ground (arith, split)))
          ]
        ];
        traced = h.traced;
      } in
      (inv, subst (λ c. lookup c s.dist ≡ some lo) (sym first) h.near.0)

  pub pop-Inv :
      (old cur : String) (lo : ℕ) (xs ys rest : List String) (s : Search)
      → s.queue ≡ cur ∷ rest
      → Inv m origin old [] lo xs ys s
      → (l : ℕ) × (zs : List String) × (ws : List String) × Inv m origin cur
          (targets m cur)
          l
          zs
          ws
          (record s { queue = rest })
        × (lookup cur s.dist ≡ some l)
  pop-Inv old cur lo [] [] rest s e h = absurd (cc (e, h.levels))
  pop-Inv old cur lo [] (y ∷ ys) rest s e h =
      let (inv, at_cur) = pop_near old cur y (suc lo) ys [] rest s e (shift old lo (y ∷ ys) s h) in
      (suc lo, ys, [], inv, at_cur)
  pop-Inv old cur lo (x ∷ xs) ys rest s e h =
      let (inv, at_cur) = pop_near old cur x lo xs ys rest s e h in (lo, xs, ys, inv, at_cur)
