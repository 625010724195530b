-- ===== src/KillChain/Impact.antt =====
-- The chain's stages stand in order, and impact is reached exactly if an observed technique has it.
use mathlib.Core.Path.{subst}
use ganglion_oob.Prelude.{
  ℕ, ◌+◌, ◌≤◌, String, none, some, Bool, true, false, ◌||◌, List, [], ◌∷◌, ◌++◌, ◌≡◌, refl, sym, ap,
  ◌∙◌, inl, inr, ltb, leb, str_eq, eq_iff, arith, Bool-cases, Option-cases, All, All-map, length,
  take,
}
use ganglion_oob.Prelude.Dict.{Dict, insert}
use ganglion_oob.KillChain.{
  ChainStep, tactic_order, order_index, index_from, mem, add_to, add_tactics, tactics_of, group,
  place, sort_steps, furthest_of, chain_of, steps_of, reconstruct,
}

-- Some observed technique has the tactic.
pub observed : String → List String → Bool
observed t [] = false
observed t (tid ∷ tids) = mem t (tactics_of tid) || observed t tids

-- Every stage comes before those after it.
abbrev pub IsRising : List ChainStep → Type 0
IsRising [] = Unit
IsRising (s ∷ l) = All (λ x. s.order ≤ x.order) l × IsRising l

-- A list of steps has one of the tactic.
has_step : String → List ChainStep → Bool
has_step t [] = false
has_step t (s ∷ l) = str_eq s.tactic_id t || has_step t l

has_key : String → Dict (List String) → Bool
has_key t [] = false
has_key t ((k, _) ∷ d) = str_eq k t || has_key t d

has_key-insert :
    (t k : String) (v : List String) (d : Dict (List String))
    → has_key t (insert k v d) ≡ (str_eq k t || has_key t d)
unfolding has_key insert
has_key-insert t k v [] = refl
has_key-insert t k v ((j, w) ∷ d) =
    ground (arith, eq_iff j k, eq_iff j t, eq_iff k t, has_key-insert t k v d)

impact : order_index "TA0040" ≡ some 12
unfolding order_index
impact = refl

has_key-add_to :
    (tid t : String) (d : Dict (List String))
    → has_key "TA0040" (add_to tid t d) ≡ (str_eq t "TA0040" || has_key "TA0040" d)
unfolding add_to
has_key-add_to tid t d = has_key-insert "TA0040" t _ d

-- A tactic with no order is another one.
other_tactic : (t : String) → order_index t ≡ none → str_eq t "TA0040" ≡ false
other_tactic t e = elim (Bool-cases (str_eq t "TA0040")) [
  | inl same ↦
      let none_there : order_index "TA0040" ≡ none =
        subst (λ x. order_index x ≡ none) ((eq_iff t "TA0040").0 same) e in
      absurd (cc (sym none_there ∙ impact))
  | inr differ ↦ differ
]

flip : (t : String) → str_eq "TA0040" t ≡ str_eq t "TA0040"
flip t = ground (arith, eq_iff "TA0040" t, eq_iff t "TA0040")

absorb : (a b c : Bool) → (b ≡ true → a ≡ true) → (a || c) ≡ (a || (b || c))
absorb a true c h = rw (h refl) refl
absorb a false c h = refl

or_false : (a : Bool) → (a || false) ≡ a
or_false true = refl
or_false false = refl

regroup : (a b c : Bool) → (b || (a || c)) ≡ ((a || b) || c)
regroup a b c = ground arith

has_key-add_tactics :
    (tid : String) (ts : List String) (d : Dict (List String))
    → has_key "TA0040" (add_tactics tid ts d) ≡ (mem "TA0040" ts || has_key "TA0040" d)
unfolding add_tactics mem
has_key-add_tactics tid [] d = refl
has_key-add_tactics tid (t ∷ ts) d = elim (Option-cases (order_index t)) [
  | inl e ↦
      rw (e, add_tactics)
        (has_key-add_tactics tid ts d
          ∙ ap (λ b. (b || mem "TA0040" ts) || has_key "TA0040" d)
              (sym (flip t ∙ other_tactic t e)))
  | inr (i, e) ↦
      rw (e, add_tactics)
        (has_key-add_tactics tid ts (add_to tid t d)
          ∙ ap (λ b. mem "TA0040" ts || b) (has_key-add_to tid t d)
          ∙ regroup (str_eq t "TA0040") (mem "TA0040" ts) (has_key "TA0040" d)
          ∙ ap (λ b. (b || mem "TA0040" ts) || has_key "TA0040" d) (sym (flip t)))
]

has_key-group :
    (tids : List String) (d : Dict (List String))
    → has_key "TA0040" (group tids d) ≡ (observed "TA0040" tids || has_key "TA0040" d)
unfolding group observed
has_key-group [] d = refl
has_key-group (tid ∷ tids) d =
    has_key-group tids (add_tactics tid (tactics_of tid) d)
    ∙ ap (λ b. observed "TA0040" tids || b) (has_key-add_tactics tid (tactics_of tid) d)
    ∙ regroup (mem "TA0040" (tactics_of tid)) (observed "TA0040" tids) (has_key "TA0040" d)

-- What holds of every step: its order is that of its tactic.
abbrev IsPlaced : ChainStep → Type 0
IsPlaced s = order_index s.tactic_id ≡ some s.order

module _ (sorted : List String → List String) where
  steps_of-IsPlaced : (d : Dict (List String)) → All IsPlaced (steps_of sorted d)
  unfolding steps_of
  steps_of-IsPlaced [] = tt
  steps_of-IsPlaced ((t, tids) ∷ d) = elim (Option-cases (order_index t)) [
    | inl e ↦ rw (e, steps_of) (steps_of-IsPlaced d)
    | inr (i, e) ↦ rw (e, steps_of) (e, steps_of-IsPlaced d)
  ]

  has_step-steps_of :
      (d : Dict (List String)) → has_step "TA0040" (steps_of sorted d) ≡ has_key "TA0040" d
  unfolding steps_of has_step has_key
  has_step-steps_of [] = refl
  has_step-steps_of ((t, tids) ∷ d) = elim (Option-cases (order_index t)) [
    | inl e ↦
        rw (e, steps_of)
          (has_step-steps_of d ∙ ap (λ b. b || has_key "TA0040" d) (sym (other_tactic t e)))
    | inr (i, e) ↦ rw (e, steps_of) (ap (λ b. str_eq t "TA0040" || b) (has_step-steps_of d))
  ]

module _ (P : ChainStep → Type 0) where
  place-All : (s : ChainStep) (l : List ChainStep) → P s → All P l → All P (place s l)
  unfolding place
  place-All s [] p h = (p, tt)
  place-All s (x ∷ l) p h = elim (Bool-cases (leb s.order x.order)) [
    | inl e ↦ rw e (p, h)
    | inr e ↦ rw e (h.0, place-All s l p h.1)
  ]

  sort_steps-All : (l : List ChainStep) → All P l → All P (sort_steps l)
  unfolding sort_steps
  sort_steps-All [] h = tt
  sort_steps-All (s ∷ l) h = place-All s (sort_steps l) h.0 (sort_steps-All l h.1)

bound : (s x y : ChainStep) → s.order ≤ x.order → x.order ≤ y.order → s.order ≤ y.order
bound s x y a b = omega arith

place-IsRising : (s : ChainStep) (l : List ChainStep) → IsRising l → IsRising (place s l)
unfolding place
place-IsRising s [] h = (tt, tt)
place-IsRising s (x ∷ l) h = elim (Bool-cases (leb s.order x.order)) [
  | inl e ↦
      let le : s.order ≤ x.order = ground arith in
      rw e
        ((le, All-map _ _ l (λ (y : ChainStep) (p : x.order ≤ y.order). bound s x y le p) h.0), h)
  | inr e ↦ rw e (place-All (λ y. x.order ≤ y.order) s l (ground arith) h.0, place-IsRising s l h.1)
]

sort_steps-IsRising : (l : List ChainStep) → IsRising (sort_steps l)
unfolding sort_steps
sort_steps-IsRising [] = tt
sort_steps-IsRising (s ∷ l) = place-IsRising s (sort_steps l) (sort_steps-IsRising l)

has_step-place :
    (t : String) (s : ChainStep) (l : List ChainStep)
    → has_step t (place s l) ≡ (str_eq s.tactic_id t || has_step t l)
unfolding place has_step
has_step-place t s [] = refl
has_step-place t s (x ∷ l) = elim (Bool-cases (leb s.order x.order)) [
  | inl e ↦ rw e refl
  | inr e ↦ rw e (ground (arith, has_step-place t s l))
]

has_step-sort : (t : String) (l : List ChainStep) → has_step t (sort_steps l) ≡ has_step t l
unfolding sort_steps has_step
has_step-sort t [] = refl
has_step-sort t (s ∷ l) =
    has_step-place t s (sort_steps l) ∙ ap (λ b. str_eq s.tactic_id t || b) (has_step-sort t l)

-- The last entry of a list, and no other, has the greatest index.
index_from-last :
    (i k : ℕ) (t z : String) (xs : List String)
    → index_from i t (xs ++ z ∷ []) ≡ some k
    → (k ≤ i + length xs) × (i + length xs ≤ k → t ≡ z)
unfolding index_from
index_from-last i k t z [] e = elim (Bool-cases (str_eq z t)) [
  | inl s ↦
      let at_i : some i ≡ some k = rw s at e in
      let same : i ≡ k = cc at_i in (omega arith, λ _. sym ((eq_iff z t).0 s))
  | inr s ↦ absurd (ground (arith, s))
]
index_from-last i k t z (x ∷ xs) e = elim (Bool-cases (str_eq x t)) [
  | inl s ↦
      let at_i : some i ≡ some k = rw s at e in
      let same : i ≡ k = cc at_i in (omega arith, λ h. absurd (omega arith))
  | inr s ↦
      let (le, last) = index_from-last (i + 1) k t z xs (rw s at e) in
      (omega arith, λ h. last (omega arith))
]

abbrev before_impact : List String
before_impact = take 12 tactic_order

last_order : (t : String) (i : ℕ) → order_index t ≡ some i → (i ≤ 12) × (12 ≤ i → t ≡ "TA0040")
unfolding order_index
last_order t i e =
    let (le, last) = index_from-last 0 i t "TA0040" before_impact e in
    (omega arith, λ h. last (omega arith))

impact_order : (s : ChainStep) → IsPlaced s → str_eq s.tactic_id "TA0040" ≡ true → s.order ≡ 12
impact_order s p e =
    let there : order_index "TA0040" ≡ some s.order =
      subst (λ t. order_index t ≡ some s.order) ((eq_iff s.tactic_id "TA0040").0 e) p in
    cc (impact, there)

furthest_of_impact :
    (best : ChainStep) (l : List ChainStep)
    → IsPlaced best
    → All IsPlaced l
    → str_eq (furthest_of best l).tactic_id "TA0040"
      ≡ (str_eq best.tactic_id "TA0040" || has_step "TA0040" l)
unfolding furthest_of has_step
furthest_of_impact best [] p h = ground arith
furthest_of_impact best (s ∷ l) p h = elim (Bool-cases (ltb best.order s.order)) [
  | inl e ↦
      rw (e, furthest_of)
        (furthest_of_impact s l h.0 h.1
          ∙ ground (arith, last_order s.tactic_id s.order h.0, impact_order best))
  | inr e ↦
      let same : str_eq s.tactic_id "TA0040" ≡ true → str_eq best.tactic_id "TA0040" ≡ true = λ t.
        (eq_iff best.tactic_id "TA0040").1
          ((last_order best.tactic_id best.order p).1 (ground (arith, impact_order s h.0 t))) in
      rw (e, furthest_of)
        (furthest_of_impact best l p h.1
          ∙ absorb (str_eq best.tactic_id "TA0040") (str_eq s.tactic_id "TA0040")
              (has_step "TA0040" l) same)
]

chain_of-impact :
    (l : List ChainStep) → All IsPlaced l → (chain_of l).reached_impact ≡ has_step "TA0040" l
unfolding chain_of has_step
chain_of-impact [] h = refl
chain_of-impact (s ∷ l) h = furthest_of_impact s l h.0 h.1

chain_of-steps : (l : List ChainStep) → (chain_of l).steps ≡ l
unfolding chain_of
chain_of-steps [] = refl
chain_of-steps (s ∷ l) = refl

furthest_of-IsPlaced :
    (best : ChainStep) (l : List ChainStep)
    → IsPlaced best
    → All IsPlaced l
    → IsPlaced (furthest_of best l)
unfolding furthest_of
furthest_of-IsPlaced best [] p h = p
furthest_of-IsPlaced best (s ∷ l) p h = elim (Bool-cases (ltb best.order s.order)) [
  | inl e ↦ rw (e, furthest_of) (furthest_of-IsPlaced s l h.0 h.1)
  | inr e ↦ rw (e, furthest_of) (furthest_of-IsPlaced best l p h.1)
]

chain_of-stages : (l : List ChainStep) → All IsPlaced l → (chain_of l).stages ≤ 13
unfolding chain_of
chain_of-stages [] h = omega arith
chain_of-stages (s ∷ l) h =
    let f = furthest_of s l in
    let p = last_order f.tactic_id f.order (furthest_of-IsPlaced s l h.0 h.1) in omega (arith, p.0)

module _ (sorted : List String → List String) where
  -- The reconstruction says that impact was reached exactly if an observed technique of the catalogue
  -- has the tactic Impact; its stages stand in the order of the kill chain, and it counts at most the
  -- thirteen there are.
  pub reconstruct-impact :
      (technique_ids : List String)
      → ((reconstruct sorted technique_ids).reached_impact ≡ observed "TA0040" technique_ids)
        × IsRising (reconstruct sorted technique_ids).steps
        × ((reconstruct sorted technique_ids).stages ≤ 13)
  unfolding reconstruct has_key
  reconstruct-impact technique_ids =
      let groups = group technique_ids [] in
      let steps = steps_of sorted groups in
      let placed = sort_steps-All IsPlaced steps (steps_of-IsPlaced sorted groups) in
      (
        chain_of-impact (sort_steps steps) placed
            ∙ has_step-sort "TA0040" steps
            ∙ has_step-steps_of sorted groups
            ∙ has_key-group technique_ids []
            ∙ or_false (observed "TA0040" technique_ids),
        subst IsRising (sym (chain_of-steps (sort_steps steps))) (sort_steps-IsRising steps),
        chain_of-stages (sort_steps steps) placed,
      )
