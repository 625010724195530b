-- ===== src/SafeEval.antt =====
-- common/safe_eval.py: the tokens and `_Parser`, which evaluates while it parses. The tokens left are
-- passed on in place of the index `i`, and `none` is an exception.
pub mod Grammar
pub mod Sound
pub mod Complete
pub mod Meaning
mod Tests
use ganglion_oob.Prelude.{
  ℕ, zero, suc, ◌+◌, ◌*◌, String, Option, none, some, Bool, true, false, not, ◌&&◌, ◌||◌, List, [],
  ◌∷◌, length, if◌then◌else◌,
}

pub data Comparator : Type 0 where
  lt le gt ge eq ne : Comparator

pub data Sign : Type 0 where
  plus minus : Sign

pub data Factor : Type 0 where
  times over percent : Factor

pub data Token : Type 0 where
  num : String → Token
  comparator : Comparator → Token
  sign : Sign → Token
  factor : Factor → Token
  opening closing kw_true kw_false kw_and kw_or kw_not : Token

-- What Python does with numbers, of which its booleans are two: how a token reads as one, and the
-- operators, of which some can raise.
pub record Numbers : Type 1 where
  pub Value : Type 0
  pub number : String → Option Value
  pub of_bool : Bool → Value
  pub truth : Value → Bool
  pub compare : Comparator → Value → Value → Bool
  pub sum : Sign → Value → Value → Option Value
  pub product : Factor → Value → Value → Option Value
  pub negate : Value → Value
  pub nought : Value
  pub is_zero : Value → Bool

infixl 5 ◌>>=◌
abbrev pub ◌>>=◌ : {A B : Type 0} → Option A → (A → Option B) → Option B
none >>= f = none
some a >>= f = f a

-- `_peek` at one kind of token, and `_eat`: what follows it.
unfoldable pub eat_or : List Token → Option (List Token)
eat_or (kw_or ∷ ts) = some ts
eat_or ts = none

unfoldable pub eat_and : List Token → Option (List Token)
eat_and (kw_and ∷ ts) = some ts
eat_and ts = none

unfoldable pub eat_comparator : List Token → Option (Comparator × List Token)
eat_comparator (comparator c ∷ ts) = some (c, ts)
eat_comparator ts = none

unfoldable pub eat_sign : List Token → Option (Sign × List Token)
eat_sign (sign s ∷ ts) = some (s, ts)
eat_sign ts = none

unfoldable pub eat_factor : List Token → Option (Factor × List Token)
eat_factor (factor f ∷ ts) = some (f, ts)
eat_factor ts = none

-- The methods of the parser; an `after` is the loop of its method with the value so far.
pub data Part (V : Type 0) : Type 0 where
  in_or in_and in_not in_comparison in_sum in_term in_factor : Part V
  after_or after_and after_sum after_term : V → Part V

module _ (n : Numbers) where
  -- `/` and `%` give 0 where the divisor is 0.
  unfoldable pub multiply : Factor → n.Value → n.Value → Option n.Value
  multiply times v r = n.product times v r
  multiply over v r = if n.is_zero r then some n.nought else n.product over v r
  multiply percent v r = if n.is_zero r then some n.nought else n.product percent v r

  -- A method on the tokens left gives its value and what it leaves of them. Each call takes fuel.
  unfoldable pub run : ℕ → Part n.Value → List Token → Option (n.Value × List Token)
  run zero part ts = none
  run (suc fuel) in_or ts = do (v, rest) ← run fuel in_and ts; run fuel (after_or v) rest
  run (suc fuel) (after_or v) ts = elim (eat_or ts) [
    | none ↦ some (v, ts)
    | some rest ↦ do
      (r, rest') ← run fuel in_and rest
      run fuel (after_or (n.of_bool (n.truth v || n.truth r))) rest'
  ]
  run (suc fuel) in_and ts = do (v, rest) ← run fuel in_not ts; run fuel (after_and v) rest
  run (suc fuel) (after_and v) ts = elim (eat_and ts) [
    | none ↦ some (v, ts)
    | some rest ↦ do
      (r, rest') ← run fuel in_not rest
      run fuel (after_and (n.of_bool (n.truth v && n.truth r))) rest'
  ]
  run (suc fuel) in_not (kw_not ∷ ts) = do
    (v, rest) ← run fuel in_not ts
    some (n.of_bool (not (n.truth v)), rest)
  run (suc fuel) in_not ts = run fuel in_comparison ts
  run (suc fuel) in_comparison ts = do
    (left, rest) ← run fuel in_sum ts
    elim (eat_comparator rest) [
      | none ↦ some (left, rest)
      | some (c, rest') ↦ do
        (right, rest'') ← run fuel in_sum rest'
        some (n.of_bool (n.compare c left right), rest'')
    ]
  run (suc fuel) in_sum ts = do (v, rest) ← run fuel in_term ts; run fuel (after_sum v) rest
  run (suc fuel) (after_sum v) ts = elim (eat_sign ts) [
    | none ↦ some (v, ts)
    | some (s, rest) ↦ do
      (r, rest') ← run fuel in_term rest
      w ← n.sum s v r
      run fuel (after_sum w) rest'
  ]
  run (suc fuel) in_term ts = do (v, rest) ← run fuel in_factor ts; run fuel (after_term v) rest
  run (suc fuel) (after_term v) ts = elim (eat_factor ts) [
    | none ↦ some (v, ts)
    | some (f, rest) ↦ do
      (r, rest') ← run fuel in_factor rest
      w ← multiply f v r
      run fuel (after_term w) rest'
  ]
  run (suc fuel) in_factor (sign minus ∷ ts) = do
    (v, rest) ← run fuel in_factor ts
    some (n.negate v, rest)
  run (suc fuel) in_factor (opening ∷ ts) = do
    (v, rest) ← run fuel in_or ts
    elim rest [ closing ∷ rest' ↦ some (v, rest') | _ ↦ none ]
  run (suc fuel) in_factor (num t ∷ ts) = do v ← n.number t; some (v, ts)
  run (suc fuel) in_factor (kw_true ∷ ts) = some (n.of_bool true, ts)
  run (suc fuel) in_factor (kw_false ∷ ts) = some (n.of_bool false, ts)
  run (suc fuel) in_factor ts = none

  unfoldable pub enough : List Token → ℕ
  enough ts = 8 * length ts + 8

  -- `parse`: no token may be left.
  unfoldable pub parse : List Token → Option n.Value
  unfolding run enough
  parse ts = do (v, rest) ← run (enough ts) in_or ts; elim rest [ [] ↦ some v | _ ∷ _ ↦ none ]

  -- `safe_eval_bool` after the tokens; the empty expression is an error.
  unfoldable pub safe_eval_bool : List Token → Option Bool
  unfolding parse
  safe_eval_bool [] = none
  safe_eval_bool (t ∷ ts) = do v ← parse (t ∷ ts); some (n.truth v)
