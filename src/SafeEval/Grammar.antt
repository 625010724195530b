-- ===== src/SafeEval/Grammar.antt =====
-- The grammar in the head of common/safe_eval.py, each rule with the value that it gives.
use ganglion_oob.Prelude.{
  ℕ, ◌<◌, String, none, some, true, false, not, ◌&&◌, ◌||◌, List, [], ◌∷◌, ◌++◌, ◌≡◌, refl, arith,
}
use ganglion_oob.SafeEval.{
  Comparator, Sign, minus, Factor, Token, num, comparator, sign, factor, opening, closing, kw_true,
  kw_false, kw_and, kw_or, kw_not, Numbers, Part, in_or, in_and, in_not, in_comparison, in_sum,
  in_term, in_factor, after_or, after_and, after_sum, after_term, multiply, eat_or, eat_and,
  eat_comparator, eat_sign, eat_factor,
}

-- A method's tokens and their value; an `after` takes what follows its first operand.
pub data Derives (n : Numbers) : Part n.Value → List Token → n.Value → Type 0 where
  or_of :
      {ts us : List Token} {v w : n.Value}
      → Derives n in_and ts v
      → Derives n (after_or v) us w
      → Derives n in_or (ts ++ us) w
  or_end : {v : n.Value} → Derives n (after_or v) [] v
  or_more :
      {ts us : List Token} {v r w : n.Value}
      → Derives n in_and ts r
      → Derives n (after_or (n.of_bool (n.truth v || n.truth r))) us w
      → Derives n (after_or v) (kw_or ∷ (ts ++ us)) w
  and_of :
      {ts us : List Token} {v w : n.Value}
      → Derives n in_not ts v
      → Derives n (after_and v) us w
      → Derives n in_and (ts ++ us) w
  and_end : {v : n.Value} → Derives n (after_and v) [] v
  and_more :
      {ts us : List Token} {v r w : n.Value}
      → Derives n in_not ts r
      → Derives n (after_and (n.of_bool (n.truth v && n.truth r))) us w
      → Derives n (after_and v) (kw_and ∷ (ts ++ us)) w
  not_of :
      {ts : List Token} {v : n.Value}
      → Derives n in_not ts v
      → Derives n in_not (kw_not ∷ ts) (n.of_bool (not (n.truth v)))
  compared : {ts : List Token} {v : n.Value} → Derives n in_comparison ts v → Derives n in_not ts v
  alone : {ts : List Token} {v : n.Value} → Derives n in_sum ts v → Derives n in_comparison ts v
  compare_of :
      {ts us : List Token} {v w : n.Value} (c : Comparator)
      → Derives n in_sum ts v
      → Derives n in_sum us w
      → Derives n in_comparison (ts ++ comparator c ∷ us) (n.of_bool (n.compare c v w))
  sum_of :
      {ts us : List Token} {v w : n.Value}
      → Derives n in_term ts v
      → Derives n (after_sum v) us w
      → Derives n in_sum (ts ++ us) w
  sum_end : {v : n.Value} → Derives n (after_sum v) [] v
  sum_more :
      {ts us : List Token} {v r x w : n.Value} (s : Sign)
      → Derives n in_term ts r
      → n.sum s v r ≡ some x
      → Derives n (after_sum x) us w
      → Derives n (after_sum v) (sign s ∷ (ts ++ us)) w
  term_of :
      {ts us : List Token} {v w : n.Value}
      → Derives n in_factor ts v
      → Derives n (after_term v) us w
      → Derives n in_term (ts ++ us) w
  term_end : {v : n.Value} → Derives n (after_term v) [] v
  term_more :
      {ts us : List Token} {v r x w : n.Value} (f : Factor)
      → Derives n in_factor ts r
      → multiply n f v r ≡ some x
      → Derives n (after_term x) us w
      → Derives n (after_term v) (factor f ∷ (ts ++ us)) w
  number_of : {t : String} {v : n.Value} → n.number t ≡ some v → Derives n in_factor (num t ∷ []) v
  true_of : Derives n in_factor (kw_true ∷ []) (n.of_bool true)
  false_of : Derives n in_factor (kw_false ∷ []) (n.of_bool false)
  in_brackets :
      {ts : List Token} {v : n.Value}
      → Derives n in_or ts v
      → Derives n in_factor (opening ∷ (ts ++ closing ∷ [])) v
  negate_of :
      {ts : List Token} {v : n.Value}
      → Derives n in_factor ts v
      → Derives n in_factor (sign minus ∷ ts) (n.negate v)

-- How tightly the operator binds that the tokens begin with; 0 is none.
unfoldable pub level : List Token → ℕ
level (kw_or ∷ ts) = 1
level (kw_and ∷ ts) = 2
level (comparator c ∷ ts) = 3
level (sign s ∷ ts) = 4
level (factor f ∷ ts) = 5
level ts = 0

-- The methods stop at the operators below these.
unfoldable pub bound : {V : Type 0} → Part V → ℕ
bound in_or = 1
bound (after_or v) = 1
bound in_and = 2
bound (after_and v) = 2
bound in_not = 3
bound in_comparison = 3
bound in_sum = 4
bound (after_sum v) = 4
bound in_term = 5
bound (after_term v) = 5
bound in_factor = 6

-- The calls that a method makes before it takes a token.
unfoldable pub rank : {V : Type 0} → Part V → ℕ
rank in_or = 7
rank in_and = 6
rank in_not = 5
rank in_comparison = 4
rank in_sum = 3
rank in_term = 2
rank in_factor = 1
rank (after_or v) = 1
rank (after_and v) = 1
rank (after_sum v) = 1
rank (after_term v) = 1

-- The loops stop where no operator of theirs comes.
pub record Stops (ts : List Token) : Type 0 where
  pub no_or : level ts < 1 → eat_or ts ≡ none
  pub no_and : level ts < 2 → eat_and ts ≡ none
  pub no_comparator : level ts < 3 → eat_comparator ts ≡ none
  pub no_sign : level ts < 4 → eat_sign ts ≡ none
  pub no_factor : level ts < 5 → eat_factor ts ≡ none

pub level-Stops : (ts : List Token) → Stops ts
unfolding level eat_or eat_and eat_comparator eat_sign eat_factor
level-Stops [] = record {
  no_or = λ _. refl;
  no_and = λ _. refl;
  no_comparator = λ _. refl;
  no_sign = λ _. refl;
  no_factor = λ _. refl;
}
level-Stops (num t ∷ ts) = record {
  no_or = λ _. refl;
  no_and = λ _. refl;
  no_comparator = λ _. refl;
  no_sign = λ _. refl;
  no_factor = λ _. refl;
}
level-Stops (kw_or ∷ ts) = record {
  no_or = λ h. absurd (omega arith);
  no_and = λ _. refl;
  no_comparator = λ _. refl;
  no_sign = λ _. refl;
  no_factor = λ _. refl;
}
level-Stops (kw_and ∷ ts) = record {
  no_or = λ _. refl;
  no_and = λ h. absurd (omega arith);
  no_comparator = λ _. refl;
  no_sign = λ _. refl;
  no_factor = λ _. refl;
}
level-Stops (comparator c ∷ ts) = record {
  no_or = λ _. refl;
  no_and = λ _. refl;
  no_comparator = λ h. absurd (omega arith);
  no_sign = λ _. refl;
  no_factor = λ _. refl;
}
level-Stops (sign s ∷ ts) = record {
  no_or = λ _. refl;
  no_and = λ _. refl;
  no_comparator = λ _. refl;
  no_sign = λ h. absurd (omega arith);
  no_factor = λ _. refl;
}
level-Stops (factor f ∷ ts) = record {
  no_or = λ _. refl;
  no_and = λ _. refl;
  no_comparator = λ _. refl;
  no_sign = λ _. refl;
  no_factor = λ h. absurd (omega arith);
}
level-Stops (opening ∷ ts) = record {
  no_or = λ _. refl;
  no_and = λ _. refl;
  no_comparator = λ _. refl;
  no_sign = λ _. refl;
  no_factor = λ _. refl;
}
level-Stops (closing ∷ ts) = record {
  no_or = λ _. refl;
  no_and = λ _. refl;
  no_comparator = λ _. refl;
  no_sign = λ _. refl;
  no_factor = λ _. refl;
}
level-Stops (kw_true ∷ ts) = record {
  no_or = λ _. refl;
  no_and = λ _. refl;
  no_comparator = λ _. refl;
  no_sign = λ _. refl;
  no_factor = λ _. refl;
}
level-Stops (kw_false ∷ ts) = record {
  no_or = λ _. refl;
  no_and = λ _. refl;
  no_comparator = λ _. refl;
  no_sign = λ _. refl;
  no_factor = λ _. refl;
}
level-Stops (kw_not ∷ ts) = record {
  no_or = λ _. refl;
  no_and = λ _. refl;
  no_comparator = λ _. refl;
  no_sign = λ _. refl;
  no_factor = λ _. refl;
}
