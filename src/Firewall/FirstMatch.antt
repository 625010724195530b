-- ===== src/Firewall/FirstMatch.antt =====
-- The first rule that matches decides.
use ganglion_oob.Prelude.{
  ℕ, suc, ◌+◌, ◌≡◌, ◌∙◌, ◌↔◌, ◌⊎◌, inl, inr, refl, sym, ap, String, Bool, List, [], ◌∷◌, ◌++◌,
  length, All, arith,
}
use ganglion_oob.Firewall.{
  Answer, yes, no, value_error, FwRule, Flow, matches, Verdict, matched, default_policy, raised,
  evaluate_from, FirewallPolicy, evaluate,
}

answer_cases : (a : Answer) → (a ≡ yes) ⊎ ((a ≡ no) ⊎ (a ≡ value_error))
answer_cases yes = inl refl
answer_cases no = inr (inl refl)
answer_cases value_error = inr (inr refl)

module _ (in_network : String → String → Bool) (f : Flow) where
  abbrev pub Refuses : FwRule → Type 0
  Refuses r = matches in_network r f ≡ no

  -- The rule stands in the list after so many rules that do not match, and matches.
  abbrev pub IsFirst : ℕ → FwRule → List FwRule → Type 0
  IsFirst i r rs =
      (before : List FwRule) × (after : List FwRule) × (rs ≡ before ++ r ∷ after)
      × (i ≡ length before)
      × All Refuses before
      × (matches in_network r f ≡ yes)

  found :
      (i k : ℕ) (r : FwRule) (rs : List FwRule)
      → evaluate_from in_network i rs f ≡ matched k r
      → (n : ℕ) × (k ≡ i + n) × IsFirst n r rs
  unfolding evaluate_from
  found i k r [] e = absurd (cc e)
  found i k r (q ∷ rs) e = elim (answer_cases (matches in_network q f)) [
    | inl fits ↦
        let here : Verdict.matched i q ≡ matched k r = rw (fits, evaluate_from) at e in
        let same : q ≡ r = cc here in
        let index : i ≡ k = cc here in
        (0, omega arith, ([], rs, cc same, refl, tt, rw (sym same) fits))
    | inr (inl refuses) ↦
        let rest : evaluate_from in_network (i + 1) rs f ≡ matched k r =
          rw (refuses, evaluate_from) at e in
        let (n, index, (before, after, split, size, none_fits, fits)) = found (i + 1) k r rs rest in
        (suc n, omega arith, (q ∷ before, after, cc split, cc size, (refuses, none_fits), fits))
    | inr (inr error) ↦
        let no_way : raised ≡ matched k r = rw (error, evaluate_from) at e in absurd (cc no_way)
  ]

  finds :
      (i : ℕ) (r : FwRule) (before after : List FwRule)
      → All Refuses before
      → matches in_network r f ≡ yes
      → evaluate_from in_network i (before ++ r ∷ after) f ≡ matched (i + length before) r
  unfolding evaluate_from
  finds i r [] after none_fits fits =
      rw (fits, evaluate_from) (ap (λ (n : ℕ). matched n r) (omega arith))
  finds i r (q ∷ before) after none_fits fits =
      rw (none_fits.0, evaluate_from)
        (finds (i + 1) r before after none_fits.1 fits ∙ ap (λ (n : ℕ). matched n r) (omega arith))

  -- First match: the policy answers with a rule and its index exactly if that rule matches the flow
  -- and stands at that index after rules none of which matches.
  pub evaluate-IsFirst :
      (p : FirewallPolicy) (i : ℕ) (r : FwRule)
      → (evaluate in_network p f ≡ matched i r) ↔ IsFirst i r p.rules
  unfolding evaluate
  evaluate-IsFirst p i r = (
    λ e.
        let (n, index, first) = found 0 i r p.rules e in
        let same : n ≡ i = omega arith in rw (sym same) first,
    λ x.
        let (before, after, split, size, none_fits, fits) = x in
        rw split
          (finds 0 r before after none_fits fits ∙ ap (λ (n : ℕ). matched n r) (omega arith)),
  )

  defaults :
      (i : ℕ) (rs : List FwRule)
      → (evaluate_from in_network i rs f ≡ default_policy) ↔ All Refuses rs
  unfolding evaluate_from
  defaults i [] = (λ e. tt, λ h. refl)
  defaults i (q ∷ rs) = elim (answer_cases (matches in_network q f)) [
    | inl fits ↦ (
      λ e.
          let no_way : Verdict.matched i q ≡ default_policy = rw (fits, evaluate_from) at e in
          absurd (cc no_way),
      λ h. absurd (cc (fits, h.0)),
    )
    | inr (inl refuses) ↦ (
      λ e. (refuses, (defaults (i + 1) rs).0 (rw (refuses, evaluate_from) at e)),
      λ h. rw (refuses, evaluate_from) ((defaults (i + 1) rs).1 h.1),
    )
    | inr (inr error) ↦ (
      λ e.
          let no_way : raised ≡ default_policy = rw (error, evaluate_from) at e in
          absurd (cc no_way),
      λ h. absurd (cc (error, h.0)),
    )
  ]

  -- Default policy: the default action is taken exactly if every rule refuses the flow.
  pub default_policy_iff :
      (p : FirewallPolicy) → (evaluate in_network p f ≡ default_policy) ↔ All Refuses p.rules
  unfolding evaluate
  default_policy_iff p = defaults 0 p.rules
