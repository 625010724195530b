-- ===== src/SafeEval/Meaning.antt =====
-- What safe_eval_bool gives is what the grammar gives, and nothing else.
use mathlib.Core.Path.{subst}
use mathlib.Core.List.{append-nil}
use ganglion_oob.Prelude.{
  Option, none, some, Bool, List, [], ◌∷◌, ◌++◌, ◌≡◌, ◌↔◌, refl, sym, ap, ◌∙◌, arith,
}
use ganglion_oob.SafeEval.{Token, Numbers, in_or, run, enough, parse, safe_eval_bool}
use ganglion_oob.SafeEval.Grammar.{Derives, level, bound, rank}
use ganglion_oob.SafeEval.Sound.{run-Took, >>=-some}
use ganglion_oob.SafeEval.Complete.{Takes, run-Takes, chains}

all_taken :
    {V : Type 0} (a v : V) (rest : List Token)
    → (elim rest [ [] ↦ Option.some a | _ ∷ _ ↦ none ]) ≡ some v
    → (a ≡ v) × (rest ≡ [])
all_taken a v [] h = (cc h, refl)
all_taken a v (t ∷ rest) h = absurd (cc h)

module _ (n : Numbers) where
  parse-derives : (ts : List Token) (v : n.Value) → parse n ts ≡ some v → Derives n in_or ts v
  unfolding parse
  parse-derives ts v h =
      let ((a, rest), first, last) = >>=-some (run n (enough n ts) in_or ts) _ v h in
      let (us, cut, d) = run-Took n (enough n ts) in_or ts a rest first in
      let (same, empty) = all_taken a v rest last in
      let whole : us ≡ ts = sym (append-nil us) ∙ ap (λ l. us ++ l) (sym empty) ∙ sym cut in
      subst (λ l. Derives n in_or l v) whole (subst (Derives n in_or us) same d)

  derives-parse : (ts : List Token) (v : n.Value) → Derives n in_or ts v → parse n ts ≡ some v
  unfolding parse Takes enough bound level rank
  derives-parse ts v d =
      let taken = run-Takes n (enough n ts) d (omega arith) [] (omega arith) in
      chains _ (v, []) _ _ (ap (run n (enough n ts) in_or) (sym (append-nil ts)) ∙ taken) refl

  nothing_derived : (v : n.Value) → Derives n in_or [] v → ⊥
  unfolding parse run enough
  nothing_derived v d = let parsed : Option.none ≡ some v = derives-parse [] v d in cc parsed

  -- The evaluator accepts exactly the grammar: it answers a Boolean for a list of tokens if and only
  -- if the documented grammar derives it with a value of that truth; the fuel is always enough.
  pub safe_eval_bool_iff :
      (ts : List Token) (b : Bool)
      → (safe_eval_bool n ts ≡ some b) ↔ ((v : n.Value) × Derives n in_or ts v × (n.truth v ≡ b))
  unfolding safe_eval_bool
  safe_eval_bool_iff [] b = (λ h. absurd (cc h), λ t. absurd (nothing_derived t.0 t.1))
  safe_eval_bool_iff (t ∷ ts) b = (
    λ h.
        let (v, parsed, same) = >>=-some (parse n (t ∷ ts)) _ b h in
        (v, parse-derives (t ∷ ts) v parsed, cc same),
    λ x. chains _ x.0 _ _ (derives-parse (t ∷ ts) x.0 x.1) (ap some x.2),
  )
