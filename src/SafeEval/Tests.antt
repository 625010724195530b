-- ===== src/SafeEval/Tests.antt =====
-- The evaluator at small inputs, with numbers that are naturals, and its theorem there.
use ganglion_oob.Prelude.{
  ℕ, ◌+◌, ◌-◌, ◌*◌, ◌/◌, ◌%◌, ◌==◌, Option, none, some, Bool, true, not, List, [], ◌∷◌, ◌≡◌, ◌↔◌,
  refl, str_eq, ltb, leb, if◌then◌else◌,
}
use ganglion_oob.SafeEval.{
  Comparator, lt, le, gt, ge, eq, ne, Sign, plus, minus, Factor, times, over, percent, Token, num,
  comparator, sign, factor, opening, closing, kw_true, kw_and, kw_not, Numbers, in_or, multiply,
  run, eat_or, eat_and, eat_comparator, eat_sign, eat_factor, enough, parse, safe_eval_bool,
}
use ganglion_oob.SafeEval.Grammar.{Derives}
use ganglion_oob.SafeEval.Meaning.{safe_eval_bool_iff}

abbrev compares : Comparator → ℕ → ℕ → Bool
compares lt a b = ltb a b
compares le a b = leb a b
compares gt a b = ltb b a
compares ge a b = leb b a
compares eq a b = a == b
compares ne a b = not (a == b)

abbrev sums : Sign → ℕ → ℕ → Option ℕ
sums plus a b = some (a + b)
sums minus a b = some (a - b)

abbrev products : Factor → ℕ → ℕ → Option ℕ
products times a b = some (a * b)
products over a b = some (a / b)
products percent a b = some (a % b)

abbrev naturals : Numbers
naturals = record {
  Value = ℕ;
  number = λ t. if str_eq t "1" then some 1 else if str_eq t "2" then some 2 else some 7;
  of_bool = λ b. if b then 1 else 0;
  truth = λ x. not (x == 0);
  compare = compares;
  sum = sums;
  product = products;
  negate = λ x. 0;
  nought = 0;
  is_zero = λ x. x == 0;
}

-- not (1 + 2 * 2 == 7) and True
abbrev shown : List Token
shown =
    kw_not
    ∷ opening
    ∷ num "1"
    ∷ sign plus
    ∷ num "2"
    ∷ factor times
    ∷ num "2"
    ∷ comparator eq
    ∷ num "7"
    ∷ closing
    ∷ kw_and
    ∷ kw_true
    ∷ []

shown_holds : safe_eval_bool naturals shown ≡ some true
unfolding safe_eval_bool parse run enough multiply eat_or eat_and eat_comparator eat_sign eat_factor
shown_holds = refl

-- A comparison does not chain, and a bracket is closed.
malformed_refused :
    (safe_eval_bool naturals (num "1" ∷ comparator lt ∷ num "2" ∷ comparator lt ∷ num "7" ∷ [])
      ≡ none)
    × (safe_eval_bool naturals (opening ∷ num "1" ∷ []) ≡ none)
unfolding safe_eval_bool parse run enough multiply eat_or eat_and eat_comparator eat_sign eat_factor
malformed_refused = (refl, refl)

safe_eval_bool_iff_example :
    (safe_eval_bool naturals shown ≡ some true)
    ↔ ((v : ℕ) × Derives naturals in_or shown v × (not (v == 0) ≡ true))
safe_eval_bool_iff_example = safe_eval_bool_iff naturals shown true
