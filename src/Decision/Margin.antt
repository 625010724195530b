-- ===== src/Decision/Margin.antt =====
-- The third part of `decide`: the winner of the weighted rules, and escalation on a thin margin.
use mathlib.Core.List.{append-nil}
use ganglion_oob.Prelude.{
  ◌≡◌, refl, ap, ◌∙◌, sym, ◌≢◌, true, false, ◌⊎◌, inl, inr, List, [], ◌∷◌, ◌++◌, arith, Bool-cases,
  if◌then◌else◌, All, ◌&&◌,
}
use ganglion_oob.Prelude.Int.{ℤ, pos, ◌-ℤ◌, ◌+ℤ◌, ◌≤ℤ◌, ◌<ℤ◌, ltb_ℤ, +ℤ_parts, -ℤ_parts}
use ganglion_oob.Decision.{
  Verdict, monitor, alert, contain, failover, heal, escalate, Fact, FiredRule, Engine, Scores, top,
  second, ranked, nonzero, is_thin, conclude, escalation, decide, decide_weighted, verdict_action,
  notify_analyst,
}
use ganglion_oob.Decision.Ranking.{ranked-first_or_second, ranked-is_max, top-ranked}
use ganglion_oob.Decision.Gates.{NoGate, decide-eq-weighted}
use ganglion_oob.Decision.Scores.{table, weight_for, counted, accumulate-no_scores}

decide_weighted-eq :
    (e : Engine) (f : Fact)
    → decide_weighted e f
      ≡ conclude e.escalate_margin (table (weight_for e.rules f)) (counted e.rules f)
unfolding decide_weighted
decide_weighted-eq e f =
    ap (λ (p : Scores × List FiredRule). conclude e.escalate_margin p.0 p.1)
      (accumulate-no_scores e.rules f)

pub decide-eq-conclude :
    (e : Engine) (f : Fact)
    → NoGate f e.rules
    → decide e f ≡ conclude e.escalate_margin (table (weight_for e.rules f)) (counted e.rules f)
decide-eq-conclude e f h = decide-eq-weighted e f h ∙ decide_weighted-eq e f

-- Where no hard gate fires, the decision reports exactly the sums of the weights of the firing
-- rules, those that are not zero, and the firing rules in order, followed by one entry that
-- explains the escalation if it escalates.
pub decide-scores :
    (e : Engine) (f : Fact)
    → NoGate f e.rules
    → ((decide e f).scores ≡ nonzero (table (weight_for e.rules f)))
      × ((decide e f).fired
          ≡ counted e.rules f
            ++ (if (decide e f).escalated
                then escalation e.escalate_margin (ranked (table (weight_for e.rules f))) ∷ []
                else []))
unfolding conclude
decide-scores e f h =
    let order = ranked (table (weight_for e.rules f)) in
    rw (decide-eq-conclude e f h) (elim (Bool-cases (is_thin e.escalate_margin order)) [
      | inl t ↦ (refl, rw t)
      | inr t ↦ (refl, rw (t, append-nil))
    ])

-- An escalated decision is the verdict to escalate.
pub escalated-verdict :
    (e : Engine) (f : Fact)
    → NoGate f e.rules
    → (decide e f).escalated ≡ true
    → (decide e f).verdict ≡ escalate
unfolding conclude
escalated-verdict e f h t =
    let thin : is_thin e.escalate_margin (ranked (table (weight_for e.rules f))) ≡ true =
      rw (decide-eq-conclude e f h) at t in
    rw (decide-eq-conclude e f h, thin)

not_thin :
    (t s limit x : ℤ)
    → (ltb_ℤ (t -ℤ s) limit && ltb_ℤ (pos 0) t) ≡ false
    → x ≤ℤ s
    → (x +ℤ limit ≤ℤ t) ⊎ (t ≤ℤ pos 0)
not_thin t s limit x h le = ground (arith, -ℤ_parts t s, +ℤ_parts x limit)

-- What holds of every entry of the table holds of every verdict.
pub All-table :
    (P : Verdict → ℤ → Type 0) (g : Verdict → ℤ)
    → All (λ e. P e.0 e.1) (table g)
    → (v : Verdict) → P v (g v)
All-table P g h monitor = h.0
All-table P g h alert = h.1.0
All-table P g h contain = h.1.1.0
All-table P g h failover = h.1.1.1.0
All-table P g h heal = h.1.1.1.1.0
All-table P g h escalate = h.1.1.1.1.1.0

module _ (g : Verdict → ℤ) where
  -- The verdict with the largest sum, the first in the enumeration among equals.
  unfoldable pub winner : Verdict
  winner = (top (ranked (table g))).0

  pub winner_score : (top (ranked (table g))).1 ≡ g winner
  unfolding winner
  winner_score =
      top-ranked (λ e. e.1 ≡ g e.0) _ _ (refl, (refl, (refl, (refl, (refl, (refl, tt))))))

  pub winner-is_max : (w : Verdict) → g w ≤ℤ g winner
  winner-is_max w =
      rw (← winner_score)
        (All-table (λ v n. n ≤ℤ (top (ranked (table g))).1) g (ranked-is_max (table g)) w)

  others-le-second : (w : Verdict) → (w ≡ winner) ⊎ (g w ≤ℤ second (ranked (table g)))
  unfolding winner
  others-le-second w =
      elim (All-table
        (λ v n.
          (v ≡ (top (ranked (table g))).0) × (n ≡ (top (ranked (table g))).1)
          ⊎ (n ≤ℤ second (ranked (table g))))
        g (ranked-first_or_second (table g)) w) [ inl p ↦ inl p.0 | inr p ↦ inr p ]

  -- Without a thin margin the winner leads by the limit, or nothing is positive.
  pub leads :
      (limit : ℤ) (w : Verdict)
      → is_thin limit (ranked (table g)) ≡ false
      → (w ≡ winner) ⊎ (g w +ℤ limit ≤ℤ g winner) ⊎ (g winner ≤ℤ pos 0)
  unfolding is_thin
  leads limit w h = elim (others-le-second w) [
    | inl e ↦ inl e
    | inr le ↦ inr (rw (← winner_score) (not_thin _ _ limit (g w) h le))
  ]

-- Where no hard gate fires, an automatic verdict, one that is not escalated, has the largest sum of
-- weights of all verdicts, and either it leads every other verdict by at least the escalation
-- margin or no verdict has a positive sum.
pub automatic_verdict_leads :
    (e : Engine) (f : Fact)
    → NoGate f e.rules
    → (decide e f).escalated ≡ false
    → (w : Verdict)
    → (weight_for e.rules f w ≤ℤ weight_for e.rules f (decide e f).verdict)
      × ((w ≡ (decide e f).verdict)
          ⊎ (weight_for e.rules f w +ℤ e.escalate_margin
              ≤ℤ weight_for e.rules f (decide e f).verdict)
          ⊎ (weight_for e.rules f (decide e f).verdict ≤ℤ pos 0))
unfolding conclude winner
automatic_verdict_leads e f h auto w =
    let g = weight_for e.rules f in
    let thin : is_thin e.escalate_margin (ranked (table g)) ≡ false =
      rw (decide-eq-conclude e f h) at auto in
    rw (decide-eq-conclude e f h, thin) (winner-is_max g w, leads g e.escalate_margin w thin)

contested :
    (g : Verdict → ℤ) (limit : ℤ) (v w : Verdict)
    → v ≢ w
    → pos 0 <ℤ g v
    → ((u : Verdict) → g u ≤ℤ g v)
    → g v <ℤ g w +ℤ limit
    → is_thin limit (ranked (table g)) ≢ false
contested g limit v w ne positive best close h = elim (leads g limit w h) [
  | inl w_wins ↦ elim (leads g limit v h) [
    | inl v_wins ↦ ne (v_wins ∙ sym w_wins)
    | inr le ↦
        ground (
          arith,
          winner-is_max g v,
          best w,
          +ℤ_parts (g w) limit,
          +ℤ_parts (g v) limit,
          ap g w_wins,
        )
  ]
  | inr le ↦ ground (arith, winner-is_max g v, best (winner g), +ℤ_parts (g w) limit)
]

-- Where no hard gate fires, two different verdicts that contest the decision are left to a human:
-- if the largest sum is positive and another verdict's sum comes within the escalation margin of
-- it, the verdict is to escalate, the analyst is notified, and the decision is marked so.
pub contested_escalates :
    (e : Engine) (f : Fact) (v w : Verdict)
    → NoGate f e.rules
    → v ≢ w
    → pos 0 <ℤ weight_for e.rules f v
    → ((u : Verdict) → weight_for e.rules f u ≤ℤ weight_for e.rules f v)
    → weight_for e.rules f v <ℤ weight_for e.rules f w +ℤ e.escalate_margin
    → ((decide e f).verdict ≡ escalate)
      × ((decide e f).action ≡ notify_analyst)
      × ((decide e f).escalated ≡ true)
unfolding conclude verdict_action
contested_escalates e f v w h ne positive best close =
    let g = weight_for e.rules f in
    let thin : is_thin e.escalate_margin (ranked (table g)) ≡ true =
      elim (Bool-cases (is_thin e.escalate_margin (ranked (table g)))) [
        | inl t ↦ t
        | inr t ↦ absurd (contested g e.escalate_margin v w ne positive best close t)
      ] in
    rw (decide-eq-conclude e f h, thin) (refl, refl, refl)
