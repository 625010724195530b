-- ===== src/SafeEval/Complete.antt =====
-- Every expression of the grammar is taken, with the fuel that `parse` gives.
use mathlib.Core.List.{append_assoc}
use ganglion_oob.Prelude.{
  ℕ, zero, suc, ◌+◌, ◌*◌, ◌≤◌, ◌<◌, Option, some, Bool, true, false, List, [], ◌∷◌, ◌++◌, ◌≡◌, refl,
  ap, ◌∙◌, arith, length, length-append,
}
use ganglion_oob.SafeEval.{
  Token, comparator, closing, kw_not, Numbers, Part, in_or, in_and, in_not, in_comparison, in_sum,
  in_term, in_factor, after_or, after_and, after_sum, after_term, run, eat_or, eat_and,
  eat_comparator, eat_sign, eat_factor, ◌>>=◌,
}
use ganglion_oob.SafeEval.Grammar.{
  Derives, or_of, or_end, or_more, and_of, and_end, and_more, not_of, compared, alone, compare_of,
  sum_of, sum_end, sum_more, term_of, term_end, term_more, number_of, true_of, false_of,
  in_brackets, negate_of, level, bound, rank, level-Stops,
}

-- The results of two calls, one after the other.
pub chains :
    {A B : Type 0} (o : Option A) (a : A) (f : A → Option B) (b : Option B)
    → o ≡ some a
    → f a ≡ b
    → (o >>= f) ≡ b
chains o a f b first later = ap (λ x. x >>= f) first ∙ later

abbrev starts_not : List Token → Bool
starts_not (kw_not ∷ ts) = true
starts_not ts = false

abbrev is_inner : {V : Type 0} → Part V → Bool
is_inner in_comparison = true
is_inner in_sum = true
is_inner in_term = true
is_inner in_factor = true
is_inner p = false

module _ (n : Numbers) where
  level-after_or :
      {v w : n.Value} {us : List Token} (rest : List Token)
      → Derives n (after_or v) us w
      → level rest < 1
      → level (us ++ rest) < 2
  unfolding level
  level-after_or rest or_end h = omega arith
  level-after_or rest (or_more a b) h = omega arith

  level-after_and :
      {v w : n.Value} {us : List Token} (rest : List Token)
      → Derives n (after_and v) us w
      → level rest < 2
      → level (us ++ rest) < 3
  unfolding level
  level-after_and rest and_end h = omega arith
  level-after_and rest (and_more a b) h = omega arith

  level-after_sum :
      {v w : n.Value} {us : List Token} (rest : List Token)
      → Derives n (after_sum v) us w
      → level rest < 4
      → level (us ++ rest) < 5
  unfolding level
  level-after_sum rest sum_end h = omega arith
  level-after_sum rest (sum_more op a value b) h = omega arith

  level-after_term :
      {v w : n.Value} {us : List Token} (rest : List Token)
      → Derives n (after_term v) us w
      → level rest < 5
      → level (us ++ rest) < 6
  unfolding level
  level-after_term rest term_end h = omega arith
  level-after_term rest (term_more op a value b) h = omega arith

  -- Only `not` begins with the word.
  starts_not-inner :
      {p : Part n.Value} {ts : List Token} {v : n.Value} (rest : List Token)
      → Derives n p ts v
      → is_inner p ≡ true
      → starts_not (ts ++ rest) ≡ false
  starts_not-inner rest (alone d) h = starts_not-inner rest d refl
  starts_not-inner rest (compare_of {ts} {us} c a b) h =
      rw (append_assoc ts (comparator c ∷ us) rest)
        (starts_not-inner (comparator c ∷ (us ++ rest)) a refl)
  starts_not-inner rest (sum_of {ts} {us} a b) h =
      rw (append_assoc ts us rest) (starts_not-inner (us ++ rest) a refl)
  starts_not-inner rest (term_of {ts} {us} a b) h =
      rw (append_assoc ts us rest) (starts_not-inner (us ++ rest) a refl)
  starts_not-inner rest (number_of e) h = refl
  starts_not-inner rest true_of h = refl
  starts_not-inner rest false_of h = refl
  starts_not-inner rest (in_brackets d) h = refl
  starts_not-inner rest (negate_of d) h = refl
  starts_not-inner rest d h = absurd (cc h)

  run-in_not :
      (fuel : ℕ) (ts : List Token)
      → starts_not ts ≡ false
      → run n (suc fuel) in_not ts ≡ run n fuel in_comparison ts
  unfolding run
  run-in_not fuel (kw_not ∷ ts) h = absurd (cc h)
  run-in_not fuel ts h = refl

  -- A method takes the tokens of its expression, and stops at what follows.
  unfoldable pub Takes : ℕ → Part n.Value → List Token → n.Value → Type 0
  Takes fuel p ts v =
      (rest : List Token) → level rest < bound p → run n fuel p (ts ++ rest) ≡ some (v, rest)

  rank-pos : (p : Part n.Value) → 0 < rank p
  unfolding rank
  rank-pos in_or = omega arith
  rank-pos in_and = omega arith
  rank-pos in_not = omega arith
  rank-pos in_comparison = omega arith
  rank-pos in_sum = omega arith
  rank-pos in_term = omega arith
  rank-pos in_factor = omega arith
  rank-pos (after_or v) = omega arith
  rank-pos (after_and v) = omega arith
  rank-pos (after_sum v) = omega arith
  rank-pos (after_term v) = omega arith

  pub run-Takes :
      (fuel : ℕ) {p : Part n.Value} {ts : List Token} {v : n.Value}
      → Derives n p ts v
      → 8 * length ts + rank p ≤ fuel
      → Takes fuel p ts v
  unfolding Takes run level bound rank eat_or eat_and eat_comparator eat_sign eat_factor
  run-Takes zero {p} d less = absurd (omega (arith, rank-pos p))
  run-Takes (suc fuel) (or_of {ts} {us} {v} {w} a b) less = λ rest low.
      rw (append_assoc ts us rest) (
        chains _ (v, us ++ rest) _ _
          (run-Takes fuel a (omega (arith, length-append ts us)) (us ++ rest)
            (level-after_or rest b low))
          (run-Takes fuel b (omega (arith, length-append ts us)) rest low))
  run-Takes (suc fuel) or_end less = λ rest low. rw ((level-Stops rest).no_or low, run) refl
  run-Takes (suc fuel) (or_more {ts} {us} {v} {r} {w} a b) less = λ rest low.
      rw (append_assoc ts us rest) (
        chains _ (r, us ++ rest) _ _
          (run-Takes fuel a (omega (arith, length-append ts us)) (us ++ rest)
            (level-after_or rest b low))
          (run-Takes fuel b (omega (arith, length-append ts us)) rest low))
  run-Takes (suc fuel) (and_of {ts} {us} {v} {w} a b) less = λ rest low.
      rw (append_assoc ts us rest) (
        chains _ (v, us ++ rest) _ _
          (run-Takes fuel a (omega (arith, length-append ts us)) (us ++ rest)
            (level-after_and rest b low))
          (run-Takes fuel b (omega (arith, length-append ts us)) rest low))
  run-Takes (suc fuel) and_end less = λ rest low. rw ((level-Stops rest).no_and low, run) refl
  run-Takes (suc fuel) (and_more {ts} {us} {v} {r} {w} a b) less = λ rest low.
      rw (append_assoc ts us rest) (
        chains _ (r, us ++ rest) _ _
          (run-Takes fuel a (omega (arith, length-append ts us)) (us ++ rest)
            (level-after_and rest b low))
          (run-Takes fuel b (omega (arith, length-append ts us)) rest low))
  run-Takes (suc fuel) (not_of {ts} {v} d) less =
      λ rest low. chains _ (v, rest) _ _ (run-Takes fuel d (omega arith) rest low) refl
  run-Takes (suc fuel) (compared {ts} d) less = λ rest low.
      run-in_not fuel (ts ++ rest) (starts_not-inner rest d refl)
      ∙ run-Takes fuel d (omega arith) rest low
  run-Takes (suc fuel) (alone {ts} {v} d) less = λ rest low.
      chains _ (v, rest) _ _ (run-Takes fuel d (omega arith) rest (omega arith))
        (rw ((level-Stops rest).no_comparator low) refl)
  run-Takes (suc fuel) (compare_of {ts} {us} {v} {w} c a b) less = λ rest low.
      rw (append_assoc ts (comparator c ∷ us) rest) (
        chains _ (v, comparator c ∷ (us ++ rest)) _ _
          (run-Takes fuel a (omega (arith, length-append ts (comparator c ∷ us)))
            (comparator c ∷ (us ++ rest)) (omega arith))
          (chains _ (w, rest) _ _
            (run-Takes fuel b (omega (arith, length-append ts (comparator c ∷ us))) rest
              (omega arith))
            refl))
  run-Takes (suc fuel) (sum_of {ts} {us} {v} {w} a b) less = λ rest low.
      rw (append_assoc ts us rest) (
        chains _ (v, us ++ rest) _ _
          (run-Takes fuel a (omega (arith, length-append ts us)) (us ++ rest)
            (level-after_sum rest b low))
          (run-Takes fuel b (omega (arith, length-append ts us)) rest low))
  run-Takes (suc fuel) sum_end less = λ rest low. rw ((level-Stops rest).no_sign low, run) refl
  run-Takes (suc fuel) (sum_more {ts} {us} {v} {r} {x} {w} op a value b) less = λ rest low.
      rw (append_assoc ts us rest) (
        chains _ (r, us ++ rest) _ _
          (run-Takes fuel a (omega (arith, length-append ts us)) (us ++ rest)
            (level-after_sum rest b low))
          (chains _ x _ _ value (run-Takes fuel b (omega (arith, length-append ts us)) rest low)))
  run-Takes (suc fuel) (term_of {ts} {us} {v} {w} a b) less = λ rest low.
      rw (append_assoc ts us rest) (
        chains _ (v, us ++ rest) _ _
          (run-Takes fuel a (omega (arith, length-append ts us)) (us ++ rest)
            (level-after_term rest b low))
          (run-Takes fuel b (omega (arith, length-append ts us)) rest low))
  run-Takes (suc fuel) term_end less = λ rest low. rw ((level-Stops rest).no_factor low, run) refl
  run-Takes (suc fuel) (term_more {ts} {us} {v} {r} {x} {w} op a value b) less = λ rest low.
      rw (append_assoc ts us rest) (
        chains _ (r, us ++ rest) _ _
          (run-Takes fuel a (omega (arith, length-append ts us)) (us ++ rest)
            (level-after_term rest b low))
          (chains _ x _ _ value (run-Takes fuel b (omega (arith, length-append ts us)) rest low)))
  run-Takes (suc fuel) (number_of {t} {v} e) less = λ rest low. chains _ v _ _ e refl
  run-Takes (suc fuel) true_of less = λ rest low. refl
  run-Takes (suc fuel) false_of less = λ rest low. refl
  run-Takes (suc fuel) (in_brackets {ts} {v} d) less = λ rest low.
      rw (append_assoc ts (closing ∷ []) rest) (
        chains _ (v, closing ∷ rest) _ _
          (run-Takes fuel d (omega (arith, length-append ts (closing ∷ []))) (closing ∷ rest)
            (omega arith))
          refl)
  run-Takes (suc fuel) (negate_of {ts} {v} d) less =
      λ rest low. chains _ (v, rest) _ _ (run-Takes fuel d (omega arith) rest low) refl
