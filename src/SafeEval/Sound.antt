-- ===== src/SafeEval/Sound.antt =====
-- What the parser takes is an expression of the grammar, and its value is the grammar's.
use mathlib.Core.Path.{subst}
use mathlib.Core.List.{append_assoc}
use ganglion_oob.Prelude.{
  ℕ, zero, suc, Option, none, some, ◌&&◌, ◌||◌, List, [], ◌∷◌, ◌++◌, ◌≡◌, refl, sym, ap, ◌∙◌, inl,
  inr, Option-cases,
}
use ganglion_oob.SafeEval.{
  Comparator, Sign, minus, Factor, Token, num, comparator, sign, factor, opening, closing, kw_true,
  kw_false, kw_and, kw_or, kw_not, Numbers, Part, in_or, in_and, in_not, in_comparison, in_sum,
  in_term, in_factor, after_or, after_and, after_sum, after_term, multiply, run, eat_or, eat_and,
  eat_comparator, eat_sign, eat_factor, ◌>>=◌,
}
use ganglion_oob.SafeEval.Grammar

pub >>=-some :
    {A B : Type 0} (o : Option A) (f : A → Option B) (b : B)
    → (o >>= f) ≡ some b
    → (a : A) × (o ≡ some a) × (f a ≡ some b)
>>=-some none f b h = absurd (cc h)
>>=-some (some a) f b h = (a, refl, h)

eat_or-some : (ts : List Token) (r : List Token) → eat_or ts ≡ some r → ts ≡ kw_or ∷ r
unfolding eat_or
eat_or-some (kw_or ∷ ts) r h = let same : ts ≡ r = cc h in ap (λ l. kw_or ∷ l) same
eat_or-some ts r h = absurd (cc h)

eat_and-some : (ts : List Token) (r : List Token) → eat_and ts ≡ some r → ts ≡ kw_and ∷ r
unfolding eat_and
eat_and-some (kw_and ∷ ts) r h = let same : ts ≡ r = cc h in ap (λ l. kw_and ∷ l) same
eat_and-some ts r h = absurd (cc h)

eat_comparator-some :
    (ts : List Token) (r : Comparator × List Token)
    → eat_comparator ts ≡ some r
    → ts ≡ comparator r.0 ∷ r.1
unfolding eat_comparator
eat_comparator-some (comparator c ∷ ts) r h =
    let same : (c, ts) ≡ r = cc h in ap (λ (x : Comparator × List Token). comparator x.0 ∷ x.1) same
eat_comparator-some ts r h = absurd (cc h)

eat_sign-some :
    (ts : List Token) (r : Sign × List Token) → eat_sign ts ≡ some r → ts ≡ sign r.0 ∷ r.1
unfolding eat_sign
eat_sign-some (sign c ∷ ts) r h =
    let same : (c, ts) ≡ r = cc h in ap (λ (x : Sign × List Token). sign x.0 ∷ x.1) same
eat_sign-some ts r h = absurd (cc h)

eat_factor-some :
    (ts : List Token) (r : Factor × List Token) → eat_factor ts ≡ some r → ts ≡ factor r.0 ∷ r.1
unfolding eat_factor
eat_factor-some (factor c ∷ ts) r h =
    let same : (c, ts) ≡ r = cc h in ap (λ (x : Factor × List Token). factor x.0 ∷ x.1) same
eat_factor-some ts r h = absurd (cc h)

joins :
    {ts mid : List Token} (us us' rest : List Token)
    → ts ≡ us ++ mid
    → mid ≡ us' ++ rest
    → ts ≡ (us ++ us') ++ rest
joins us us' rest cut cut' = cut ∙ ap (λ l. us ++ l) cut' ∙ sym (append_assoc us us' rest)

joins_at :
    {ts mid mid' : List Token} (t : Token) (us us' rest : List Token)
    → ts ≡ us ++ mid
    → mid ≡ t ∷ mid'
    → mid' ≡ us' ++ rest
    → ts ≡ (us ++ t ∷ us') ++ rest
joins_at t us us' rest cut eaten cut' =
    cut ∙ ap (λ l. us ++ l) (eaten ∙ ap (λ l. t ∷ l) cut') ∙ sym (append_assoc us (t ∷ us') rest)

module _ (n : Numbers) where
  -- A method took the first of the tokens, and they derive its value.
  abbrev pub Took : Part n.Value → List Token → n.Value → List Token → Type 0
  Took p ts v rest = (us : List Token) × (ts ≡ us ++ rest) × Grammar.Derives n p us v

  abbrev gave : n.Value → List Token → Option (n.Value × List Token)
  gave v rest = some (v, rest)

  -- The value and the rest of a result are those that it is said to be.
  gives :
      {p : Part n.Value} {ts rest rest' : List Token} {v w : n.Value}
      → gave v rest ≡ gave w rest'
      → Took p ts v rest
      → Took p ts w rest'
  gives {p} {ts} {rest} {rest'} {v} {w} e t =
      let values : v ≡ w = cc e in
      let rests : rest ≡ rest' = cc e in
      subst (Took p ts w) rests (subst (λ x. Took p ts x rest) values t)

  ended :
      {p : Part n.Value} {ts rest : List Token} {v w : n.Value}
      → gave v ts ≡ gave w rest
      → Grammar.Derives n p [] v
      → Took p ts w rest
  ended e d = gives e ([], refl, d)

  closed :
      (mid : List Token) (a v : n.Value) (rest : List Token)
      → (elim mid [ closing ∷ r ↦ gave a r | _ ↦ none ]) ≡ gave v rest
      → (r : List Token) × (mid ≡ closing ∷ [] ++ r) × (gave a r ≡ gave v rest)
  closed (closing ∷ r) a v rest h = (r, refl, h)
  closed mid a v rest h = absurd (cc h)

  pub run-Took :
      (fuel : ℕ) (p : Part n.Value) (ts : List Token) (v : n.Value) (rest : List Token)
      → run n fuel p ts ≡ some (v, rest)
      → Took p ts v rest
  unfolding run
  run-Took zero p ts v rest h = absurd (cc h)
  run-Took (suc fuel) in_or ts v rest h =
      let ((a, mid), first, later) = >>=-some (run n fuel in_and ts) _ (v, rest) h in
      let (us, cut, d) = run-Took fuel in_and ts a mid first in
      let (us', cut', d') = run-Took fuel (after_or a) mid v rest later in
      (us ++ us', joins us us' rest cut cut', Grammar.or_of d d')
  run-Took (suc fuel) (after_or a) ts v rest h = elim (Option-cases (eat_or ts)) [
    | inl e ↦ ended (rw (e, run) at h) Grammar.or_end
    | inr (mid, e) ↦
        let ((r, mid'), first, later) =
          >>=-some (run n fuel in_and mid) _ (v, rest) (rw (e, run) at h) in
        let (us, cut, d) = run-Took fuel in_and mid r mid' first in
        let (us', cut', d') =
          run-Took fuel (after_or (n.of_bool (n.truth a || n.truth r))) mid' v rest later in
        (
          kw_or ∷ (us ++ us'),
          eat_or-some ts mid e ∙ ap (λ l. kw_or ∷ l) (joins us us' rest cut cut'),
          Grammar.or_more d d',
        )
  ]
  run-Took (suc fuel) in_and ts v rest h =
      let ((a, mid), first, later) = >>=-some (run n fuel in_not ts) _ (v, rest) h in
      let (us, cut, d) = run-Took fuel in_not ts a mid first in
      let (us', cut', d') = run-Took fuel (after_and a) mid v rest later in
      (us ++ us', joins us us' rest cut cut', Grammar.and_of d d')
  run-Took (suc fuel) (after_and a) ts v rest h = elim (Option-cases (eat_and ts)) [
    | inl e ↦ ended (rw (e, run) at h) Grammar.and_end
    | inr (mid, e) ↦
        let ((r, mid'), first, later) =
          >>=-some (run n fuel in_not mid) _ (v, rest) (rw (e, run) at h) in
        let (us, cut, d) = run-Took fuel in_not mid r mid' first in
        let (us', cut', d') =
          run-Took fuel (after_and (n.of_bool (n.truth a && n.truth r))) mid' v rest later in
        (
          kw_and ∷ (us ++ us'),
          eat_and-some ts mid e ∙ ap (λ l. kw_and ∷ l) (joins us us' rest cut cut'),
          Grammar.and_more d d',
        )
  ]
  run-Took (suc fuel) in_not (kw_not ∷ ts) v rest h =
      let ((a, mid), first, last) = >>=-some (run n fuel in_not ts) _ (v, rest) h in
      let (us, cut, d) = run-Took fuel in_not ts a mid first in
      gives last (kw_not ∷ us, ap (λ l. kw_not ∷ l) cut, Grammar.not_of d)
  run-Took (suc fuel) in_not ts v rest h =
      let (us, cut, d) = run-Took fuel in_comparison ts v rest h in (us, cut, Grammar.compared d)
  run-Took (suc fuel) in_comparison ts v rest h =
      let ((a, mid), first, later) = >>=-some (run n fuel in_sum ts) _ (v, rest) h in
      let (us, cut, d) = run-Took fuel in_sum ts a mid first in
      elim (Option-cases (eat_comparator mid)) [
        | inl e ↦ gives (rw e at later) (us, cut, Grammar.alone d)
        | inr ((c, mid'), e) ↦
            let ((b, mid''), second, last) =
              >>=-some (run n fuel in_sum mid') _ (v, rest) (rw e at later) in
            let (us', cut', d') = run-Took fuel in_sum mid' b mid'' second in
            gives last (
              us ++ comparator c ∷ us',
              joins_at (comparator c) us us' mid'' cut (eat_comparator-some mid (c, mid') e) cut',
              Grammar.compare_of c d d',
            )
      ]
  run-Took (suc fuel) in_sum ts v rest h =
      let ((a, mid), first, later) = >>=-some (run n fuel in_term ts) _ (v, rest) h in
      let (us, cut, d) = run-Took fuel in_term ts a mid first in
      let (us', cut', d') = run-Took fuel (after_sum a) mid v rest later in
      (us ++ us', joins us us' rest cut cut', Grammar.sum_of d d')
  run-Took (suc fuel) (after_sum a) ts v rest h = elim (Option-cases (eat_sign ts)) [
    | inl e ↦ ended (rw (e, run) at h) Grammar.sum_end
    | inr ((op, mid), e) ↦
        let ((r, mid'), first, later) =
          >>=-some (run n fuel in_term mid) _ (v, rest) (rw (e, run) at h) in
        let (x, value, last) = >>=-some (n.sum op a r) _ (v, rest) later in
        let (us, cut, d) = run-Took fuel in_term mid r mid' first in
        let (us', cut', d') = run-Took fuel (after_sum x) mid' v rest last in
        (
          sign op ∷ (us ++ us'),
          eat_sign-some ts (op, mid) e ∙ ap (λ l. sign op ∷ l) (joins us us' rest cut cut'),
          Grammar.sum_more op d value d',
        )
  ]
  run-Took (suc fuel) in_term ts v rest h =
      let ((a, mid), first, later) = >>=-some (run n fuel in_factor ts) _ (v, rest) h in
      let (us, cut, d) = run-Took fuel in_factor ts a mid first in
      let (us', cut', d') = run-Took fuel (after_term a) mid v rest later in
      (us ++ us', joins us us' rest cut cut', Grammar.term_of d d')
  run-Took (suc fuel) (after_term a) ts v rest h = elim (Option-cases (eat_factor ts)) [
    | inl e ↦ ended (rw (e, run) at h) Grammar.term_end
    | inr ((op, mid), e) ↦
        let ((r, mid'), first, later) =
          >>=-some (run n fuel in_factor mid) _ (v, rest) (rw (e, run) at h) in
        let (x, value, last) = >>=-some (multiply n op a r) _ (v, rest) later in
        let (us, cut, d) = run-Took fuel in_factor mid r mid' first in
        let (us', cut', d') = run-Took fuel (after_term x) mid' v rest last in
        (
          factor op ∷ (us ++ us'),
          eat_factor-some ts (op, mid) e ∙ ap (λ l. factor op ∷ l) (joins us us' rest cut cut'),
          Grammar.term_more op d value d',
        )
  ]
  run-Took (suc fuel) in_factor (sign minus ∷ ts) v rest h =
      let ((a, mid), first, last) = >>=-some (run n fuel in_factor ts) _ (v, rest) h in
      let (us, cut, d) = run-Took fuel in_factor ts a mid first in
      gives last (sign minus ∷ us, ap (λ l. sign minus ∷ l) cut, Grammar.negate_of d)
  run-Took (suc fuel) in_factor (opening ∷ ts) v rest h =
      let ((a, mid), first, last) = >>=-some (run n fuel in_or ts) _ (v, rest) h in
      let (us, cut, d) = run-Took fuel in_or ts a mid first in
      let (mid', closes, same) = closed mid a v rest last in
      gives same (
        opening ∷ (us ++ closing ∷ []),
        ap (λ l. opening ∷ l) (joins us (closing ∷ []) mid' cut closes),
        Grammar.in_brackets d,
      )
  run-Took (suc fuel) in_factor (num t ∷ ts) v rest h =
      let (a, value, last) = >>=-some (n.number t) _ (v, rest) h in
      gives last (num t ∷ [], refl, Grammar.number_of value)
  run-Took (suc fuel) in_factor (kw_true ∷ ts) v rest h =
      gives h (kw_true ∷ [], refl, Grammar.true_of)
  run-Took (suc fuel) in_factor (kw_false ∷ ts) v rest h =
      gives h (kw_false ∷ [], refl, Grammar.false_of)
  run-Took (suc fuel) in_factor ts v rest h = absurd (cc h)
