-- ===== src/Channel/OrderedSet.antt =====
-- common/secure_channel.py: `OrderedSet`, the bounded set of the nonces seen last.
use ganglion_oob.Prelude.{
  ℕ, suc, ◌+◌, ◌≤◌, ◌<◌, ◌≡◌, refl, ◌∙◌, Bool, true, false, ◌||◌, ◌&&◌, not, List, [], ◌∷◌, ◌++◌,
  arith, length, length-append, ltb, Bool-cases, inl, inr, if◌then◌else◌,
}
use ganglion_oob.Prelude.Bytes.{Bytes, bytes_eq, bytes_eq_refl, bytes_eq_iff}

pub record OrderedSet : Type 0 where
  pub maxlen : ℕ
  pub items : List Bytes
  pub order : List Bytes

abbrev pub new_set : ℕ → OrderedSet
new_set n = record { maxlen = n; items = []; order = [] }

-- `x in items`, for a set and for a deque
unfoldable pub mem : Bytes → List Bytes → Bool
mem x [] = false
mem x (y ∷ ys) = bytes_eq y x || mem x ys

-- `__contains__`
unfoldable pub contains : OrderedSet → Bytes → Bool
contains s x = mem x s.items

-- `self._set.discard(old)`
pub discard : Bytes → List Bytes → List Bytes
discard x [] = []
discard x (y ∷ ys) = if bytes_eq y x then discard x ys else y ∷ discard x ys

-- The eviction of the oldest item.
unfoldable pub evict : OrderedSet → OrderedSet
evict s = elim s.order [
  | [] ↦ s
  | old ∷ rest ↦ record s { items = discard old s.items; order = rest }
]

unfoldable pub add : Bytes → OrderedSet → OrderedSet
add x s =
    let t = record s { items = x ∷ s.items; order = s.order ++ x ∷ [] } in
    if contains s x then s else if ltb s.maxlen (length t.order) then evict t else t

abbrev Distinct : List Bytes → Type 0
Distinct [] = Unit
Distinct (x ∷ xs) = (mem x xs ≡ false) × Distinct xs

-- The set holds what the deque holds, without repetition and within the bound.
pub record IsCoherent (s : OrderedSet) : Type 0 where
  pub same : (x : Bytes) → mem x s.items ≡ mem x s.order
  pub distinct : Distinct s.order
  pub bounded : length s.order ≤ s.maxlen

mem-append :
    (x : Bytes) (ys : List Bytes) (z : Bytes) → mem x (ys ++ z ∷ []) ≡ (mem x ys || bytes_eq z x)
unfolding mem
mem-append x [] z = ground arith
mem-append x (y ∷ ys) z = ground (arith, mem-append x ys z)

mem-discard :
    (x o : Bytes) (ys : List Bytes) → mem x (discard o ys) ≡ (mem x ys && not (bytes_eq o x))
unfolding mem discard
mem-discard x o [] = refl
mem-discard x o (y ∷ ys) =
    ground (arith, mem-discard x o ys, bytes_eq_iff y o, bytes_eq_iff y x, bytes_eq_iff o x)

Distinct-append :
    (ys : List Bytes) (z : Bytes) → Distinct ys → mem z ys ≡ false → Distinct (ys ++ z ∷ [])
unfolding mem
Distinct-append [] z d m = (refl, tt)
Distinct-append (y ∷ ys) z d m = (
  ground (arith, d.0, mem-append y ys z, bytes_eq_iff y z, bytes_eq_iff z y),
  Distinct-append ys z d.1 (ground arith),
)

module _ (s : OrderedSet) (x : Bytes) (c : IsCoherent s) (fresh : contains s x ≡ false) where
  grown : List Bytes
  grown = s.order ++ x ∷ []

  grown-Distinct : Distinct grown
  unfolding grown contains
  grown-Distinct = Distinct-append s.order x c.distinct (ground (arith, c.same x))

  grown_same : (y : Bytes) → mem y (x ∷ s.items) ≡ mem y grown
  unfolding grown mem
  grown_same y = ground (arith, c.same y, mem-append y s.order x)

evict-IsCoherent :
    (n : ℕ) (items order : List Bytes)
    → ((y : Bytes) → mem y items ≡ mem y order)
    → Distinct order
    → length order ≤ suc n
    → 0 < length order
    → IsCoherent (evict (record { maxlen = n; items = items; order = order }))
unfolding evict
evict-IsCoherent n items [] same d le pos = absurd (omega arith)
evict-IsCoherent n items (old ∷ rest) same d le pos = record {
  same =
      λ y. unfold mem in ground (arith, mem-discard y old items, same y, d.0, bytes_eq_iff old y);
  distinct = d.1;
  bounded = omega arith;
}

last_kept :
    (x : Bytes) (n : ℕ) (items ys : List Bytes)
    → 0 < length ys
    → mem x (evict (record { maxlen = n; items = items; order = ys ++ x ∷ [] })).order ≡ true
unfolding evict
last_kept x n items [] pos = absurd (omega arith)
last_kept x n items (y ∷ ys) pos = ground (arith, mem-append x ys x, bytes_eq_iff x x)

-- Adding a nonce keeps the set equal to the deque, free of repetition and within its bound, also
-- when the oldest nonce is evicted, and the added nonce is in it afterwards.
pub add-IsCoherent :
    (s : OrderedSet) (x : Bytes)
    → IsCoherent s
    → 0 < s.maxlen
    → IsCoherent (add x s) × (contains (add x s) x ≡ true)
unfolding add
add-IsCoherent s x c positive = elim (Bool-cases (contains s x)) [
  | inl known ↦ rw known (c, known)
  | inr fresh ↦ elim (Bool-cases (ltb s.maxlen (length (s.order ++ x ∷ [])))) [
    | inl full ↦
        let le : length (s.order ++ x ∷ []) ≡ length s.order + 1 = length-append s.order (x ∷ []) in
        let kept : IsCoherent
            (evict (record { maxlen = s.maxlen; items = x ∷ s.items; order = s.order ++ x ∷ [] })) =
          evict-IsCoherent s.maxlen (x ∷ s.items) (s.order ++ x ∷ [])
            (unfold grown in grown_same s x c fresh) (unfold grown in grown-Distinct s x c fresh)
            (omega (arith, c.bounded)) (omega arith) in
        rw (fresh, full)
          (
            kept,
            unfold contains in
                (kept.same x ∙ last_kept x s.maxlen (x ∷ s.items) s.order (ground arith)),
          )
    | inr room ↦
        rw (fresh, room)
          (
            record {
              same = unfold grown in grown_same s x c fresh;
              distinct = unfold grown in grown-Distinct s x c fresh;
              bounded = ground arith;
            },
            unfold contains mem in rw bytes_eq_refl,
          )
  ]
]
