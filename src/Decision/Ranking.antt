-- ===== src/Decision/Ranking.antt =====
-- The stable sort of the scores: `ranked[0]` is the winner, `ranked[1]` the runner-up.
use ganglion_oob.Prelude.{◌≡◌, refl, inl, inr, [], ◌∷◌, arith, All, All-map, Bool-cases, ◌⊎◌}
use ganglion_oob.Prelude.Int.{ℤ, ◌≤ℤ◌, leb_ℤ}
use ganglion_oob.Decision.{Verdict, Scores, place, ranked, top, second}

-- Scores do not rise along the list.
abbrev IsDescending : Scores → Type 0
IsDescending [] = Unit
IsDescending (x ∷ xs) = All (λ y. y.1 ≤ℤ x.1) xs × IsDescending xs

module _ (P : Verdict × ℤ → Type 0) where
  All-place : (x : Verdict × ℤ) (l : Scores) → P x → All P l → All P (place x l)
  unfolding place
  All-place x [] p h = (p, tt)
  All-place x (y ∷ ys) p h = elim (Bool-cases (leb_ℤ y.1 x.1)) [
    | inl e ↦ rw e (p, h)
    | inr e ↦ rw e (h.0, All-place x ys p h.1)
  ]

  All-of_place : (x : Verdict × ℤ) (l : Scores) → All P (place x l) → P x × All P l
  unfolding place
  All-of_place x [] h = h
  All-of_place x (y ∷ ys) h = elim (Bool-cases (leb_ℤ y.1 x.1)) [
    | inl e ↦ rw e at h
    | inr e ↦
        let h' : P y × All P (place x ys) = rw e at h in
        let r = All-of_place x ys h'.1 in (r.0, (h'.0, r.1))
  ]

  -- The sort keeps the entries.
  pub All-ranked : (l : Scores) → All P l → All P (ranked l)
  unfolding ranked
  All-ranked [] h = tt
  All-ranked (x ∷ xs) h = All-place x (ranked xs) h.0 (All-ranked xs h.1)

  pub All-of_ranked : (l : Scores) → All P (ranked l) → All P l
  unfolding ranked
  All-of_ranked [] h = tt
  All-of_ranked (x ∷ xs) h = let r = All-of_place x (ranked xs) h in (r.0, All-of_ranked xs r.1)

  top-place : (x : Verdict × ℤ) (l : Scores) → All P (place x l) → P (top (place x l))
  unfolding place
  top-place x [] h = h.0
  top-place x (y ∷ ys) h = elim (Bool-cases (leb_ℤ y.1 x.1)) [
    | inl e ↦ rw e (rw e at h).0
    | inr e ↦ rw e (rw e at h).0
  ]

  -- The winner is an entry.
  pub top-ranked : (x : Verdict × ℤ) (xs : Scores) → All P (x ∷ xs) → P (top (ranked (x ∷ xs)))
  unfolding ranked
  top-ranked x xs h = top-place x (ranked xs) (All-ranked (x ∷ xs) h)

place-IsDescending : (x : Verdict × ℤ) (l : Scores) → IsDescending l → IsDescending (place x l)
unfolding place
place-IsDescending x [] h = (tt, tt)
place-IsDescending x (y ∷ ys) h = elim (Bool-cases (leb_ℤ y.1 x.1)) [
  | inl e ↦
      rw e (
        (ground arith, All-map (λ z. z.1 ≤ℤ y.1) (λ z. z.1 ≤ℤ x.1) ys (λ z p. ground arith) h.0),
        h,
      )
  | inr e ↦ rw e (All-place (λ z. z.1 ≤ℤ y.1) x ys (ground arith) h.0, place-IsDescending x ys h.1)
]

ranked-IsDescending : (l : Scores) → IsDescending (ranked l)
unfolding ranked
ranked-IsDescending [] = tt
ranked-IsDescending (x ∷ xs) = place-IsDescending x (ranked xs) (ranked-IsDescending xs)

-- In a descending list every entry is the first or scores at most what the second does.
first_or_second :
    (l : Scores)
    → IsDescending l
    → All (λ e. (e.0 ≡ (top l).0) × (e.1 ≡ (top l).1) ⊎ (e.1 ≤ℤ second l)) l
first_or_second [] h = tt
first_or_second (x ∷ []) h = (inl (refl, refl), tt)
first_or_second (x ∷ y ∷ ys) h =
    (inl (refl, refl), (inr (omega arith), All-map _ _ ys (λ z p. inr p) h.1.0))

pub ranked-first_or_second :
    (l : Scores)
    → All
        (λ e. (e.0 ≡ (top (ranked l)).0) × (e.1 ≡ (top (ranked l)).1) ⊎ (e.1 ≤ℤ second (ranked l)))
        l
ranked-first_or_second l = All-of_ranked _ l (first_or_second (ranked l) (ranked-IsDescending l))

-- The winner's score is the largest.
top-is_max : (l : Scores) → IsDescending l → All (λ e. e.1 ≤ℤ (top l).1) l
top-is_max [] h = tt
top-is_max (x ∷ xs) h = (omega arith, h.0)

pub ranked-is_max : (l : Scores) → All (λ e. e.1 ≤ℤ (top (ranked l)).1) l
ranked-is_max l = All-of_ranked _ l (top-is_max (ranked l) (ranked-IsDescending l))
