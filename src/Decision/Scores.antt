-- ===== src/Decision/Scores.antt =====
-- The weighted rules of `decide`: the second loop adds up, for each verdict, the weights of the
-- rules that fire.
use mathlib.Core.Path.{fun_ext}
use mathlib.Core.List.{append-nil, append_assoc}
use ganglion_oob.Prelude.{
  ◌≡◌, refl, ap, ◌∙◌, sym, List, [], ◌∷◌, ◌++◌, Bool-cases, inl, inr, if◌then◌else◌, ◌&&◌,
}
use ganglion_oob.Prelude.Int.{ℤ, pos, ◌+ℤ◌, int_laws}
use ganglion_oob.Decision.{
  Verdict, monitor, alert, contain, failover, heal, escalate, Fact, Rule, FiredRule, Scores,
  no_scores, add_score, counts, fired_entry, accumulate, verdict_eq,
}

-- One entry for each verdict, in the order of the enumeration.
abbrev pub table : (Verdict → ℤ) → Scores
table g =
    (monitor, g monitor)
    ∷ (alert, g alert)
    ∷ (contain, g contain)
    ∷ (failover, g failover)
    ∷ (heal, g heal)
    ∷ (escalate, g escalate)
    ∷ []

-- The sum of the weights of the rules for `v` that count.
unfoldable pub weight_for : List Rule → Fact → Verdict → ℤ
weight_for [] f v = pos 0
weight_for (r ∷ rs) f v =
    let rest = weight_for rs f v in
    if counts r f && verdict_eq v r.verdict then r.weight +ℤ rest else rest

-- The entries of the rules that count, in their order.
pub counted : List Rule → Fact → List FiredRule
counted [] f = []
counted (r ∷ rs) f = let rest = counted rs f in if counts r f then fired_entry r ∷ rest else rest

abbrev bump : Verdict → ℤ → (Verdict → ℤ) → Verdict → ℤ
bump v w g u = if verdict_eq u v then g u +ℤ w else g u

add_score-table :
    (v : Verdict) (w : ℤ) (g : Verdict → ℤ) → add_score v w (table g) ≡ table (bump v w g)
unfolding add_score
add_score-table monitor w g = refl
add_score-table alert w g = refl
add_score-table _ w g = refl

weight_for-cons :
    (r : Rule) (rs : List Rule) (f : Fact) (g : Verdict → ℤ) (v : Verdict)
    → (if counts r f then bump r.verdict r.weight g else g) v +ℤ weight_for rs f v
      ≡ g v +ℤ weight_for (r ∷ rs) f v
unfolding weight_for
weight_for-cons r rs f g v = elim (Bool-cases (counts r f)) [
  | inl c ↦ elim (Bool-cases (verdict_eq v r.verdict)) [
    | inl e ↦ rw (c, e) (omega int_laws)
    | inr e ↦ rw (c, e) refl
  ]
  | inr c ↦ rw c refl
]

table_cong : (g h : Verdict → ℤ) → ((v : Verdict) → g v ≡ h v) → table g ≡ table h
table_cong g h e = ap table (fun_ext e)

pair_cong :
    {s t : Scores} {a b : List FiredRule}
    → s ≡ t
    → a ≡ b
    → ◌≡◌ {A = Scores × List FiredRule} (s, a) (t, b)
pair_cong p q = λ i. (p i, q i)

score_step :
    (r : Rule) (f : Fact) (g : Verdict → ℤ)
    → (if counts r f then add_score r.verdict r.weight (table g) else table g)
      ≡ table (if counts r f then bump r.verdict r.weight g else g)
score_step r f g = elim (Bool-cases (counts r f)) [
  | inl c ↦ rw c (add_score-table r.verdict r.weight g)
  | inr c ↦ rw c
]

fired_step :
    (r : Rule) (rs : List Rule) (f : Fact) (fired : List FiredRule)
    → (if counts r f then fired ++ fired_entry r ∷ [] else fired) ++ counted rs f
      ≡ fired ++ counted (r ∷ rs) f
unfolding counted
fired_step r rs f fired = elim (Bool-cases (counts r f)) [
  | inl c ↦ rw c (append_assoc fired (fired_entry r ∷ []) (counted rs f))
  | inr c ↦ rw c
]

-- What the second loop leaves: the sums of the weights, and the rules that count.
pub accumulate-table :
    (rs : List Rule) (f : Fact) (g : Verdict → ℤ) (fired : List FiredRule)
    → accumulate rs f (table g) fired
      ≡ (table (λ v. g v +ℤ weight_for rs f v), fired ++ counted rs f)
unfolding accumulate
accumulate-table [] f g fired =
    pair_cong
      (table_cong g (λ v. g v +ℤ weight_for [] f v) λ v. unfold weight_for in omega int_laws)
      (sym (unfold counted in append-nil fired))
accumulate-table (r ∷ rs) f g fired =
    let g' : Verdict → ℤ = if counts r f then bump r.verdict r.weight g else g in
    rw (score_step r f g) (
      accumulate-table rs f g' (if counts r f then fired ++ fired_entry r ∷ [] else fired)
      ∙ pair_cong (table_cong _ _ λ v. weight_for-cons r rs f g v) (fired_step r rs f fired))

pub accumulate-no_scores :
    (rs : List Rule) (f : Fact)
    → accumulate rs f no_scores [] ≡ (table (weight_for rs f), counted rs f)
accumulate-no_scores rs f =
    accumulate-table rs f (λ v. pos 0) []
    ∙ pair_cong (table_cong (λ v. pos 0 +ℤ weight_for rs f v) (weight_for rs f) λ v. omega int_laws)
        refl
