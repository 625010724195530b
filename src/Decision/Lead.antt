-- ===== src/Decision/Lead.antt =====
-- The other direction of Margin: a verdict that leads clearly is chosen, and is not escalated.
use ganglion_oob.Prelude.{
  ℕ, ◌+◌, ◌≡◌, refl, ap, sym, ◌&&◌, ◌∙◌, ◌≢◌, true, false, ◌⊎◌, inl, inr, [], ◌∷◌, arith,
  Bool-cases, if◌then◌else◌, All,
}
use ganglion_oob.Prelude.Int.{ℤ, pos, ◌+ℤ◌, ◌-ℤ◌, ◌<ℤ◌, ◌≤ℤ◌, leb_ℤ, ltb_ℤ, +ℤ_parts, -ℤ_parts}
use ganglion_oob.Decision.{
  Verdict, monitor, alert, contain, failover, heal, escalate, Fact, Engine, Scores, top, second,
  place, ranked, is_thin, conclude, decide, verdict_eq, verdict_action,
}
use ganglion_oob.Decision.Ranking.{All-ranked}
use ganglion_oob.Decision.Gates.{NoGate}
use ganglion_oob.Decision.Scores.{table, weight_for}
use ganglion_oob.Decision.Margin.{winner, winner_score, winner-is_max, decide-eq-conclude}

count_key : Verdict → Scores → ℕ
count_key v [] = 0
count_key v (e ∷ l) = (if verdict_eq e.0 v then 1 else 0) + count_key v l

count_key-place :
    (v : Verdict) (x : Verdict × ℤ) (l : Scores) → count_key v (place x l) ≡ count_key v (x ∷ l)
unfolding place count_key
count_key-place v x [] = refl
count_key-place v x (y ∷ ys) = elim (Bool-cases (leb_ℤ y.1 x.1)) [
  | inl e ↦ rw e
  | inr e ↦ rw e (ground (arith, count_key-place v x ys))
]

count_key-ranked : (v : Verdict) (l : Scores) → count_key v (ranked l) ≡ count_key v l
unfolding ranked count_key
count_key-ranked v [] = refl
count_key-ranked v (x ∷ xs) = ground (arith, count_key-place v x (ranked xs), count_key-ranked v xs)

count_key-table : (v : Verdict) (g : Verdict → ℤ) → count_key v (table g) ≡ 1
unfolding count_key
count_key-table monitor g = refl
count_key-table alert g = refl
count_key-table _ g = refl

verdict_eq_refl : (v : Verdict) → verdict_eq v v ≡ true
verdict_eq_refl monitor = refl
verdict_eq_refl alert = refl
verdict_eq_refl _ = refl

verdict_eq-ne : (u v : Verdict) → u ≢ v → verdict_eq u v ≡ false
verdict_eq-ne monitor monitor h = absurd (h refl)
verdict_eq-ne alert alert h = absurd (h refl)
verdict_eq-ne contain contain h = absurd (h refl)
verdict_eq-ne failover failover h = absurd (h refl)
verdict_eq-ne heal heal h = absurd (h refl)
verdict_eq-ne escalate escalate h = absurd (h refl)
verdict_eq-ne _ _ h = refl

-- Where `v` comes first and `u` is there too, the runner-up is the score of another than `v`.
second_of_other :
    (P : ℤ → Type 0) (u v : Verdict) (l : Scores)
    → (top l).0 ≡ v
    → u ≢ v
    → count_key v l ≡ 1
    → count_key u l ≡ 1
    → All (λ e. (e.0 ≡ v) ⊎ P e.1) l
    → P (second l)
unfolding count_key
second_of_other P u v [] e ne c d h = absurd (omega arith)
second_of_other P u v (x ∷ []) e ne c d h =
    let other : verdict_eq x.0 u ≡ false = verdict_eq-ne x.0 u (λ p. ne (sym p ∙ e)) in
    absurd (ground arith)
second_of_other P u v (x ∷ y ∷ ys) e ne c d h = elim h.1.0 [
  | inl same ↦
      let a : verdict_eq x.0 v ≡ true = rw e (verdict_eq_refl v) in
      let b : verdict_eq y.0 v ≡ true = rw same (verdict_eq_refl v) in absurd (ground arith)
  | inr p ↦ p
]

module _ (g : Verdict → ℤ) (limit : ℤ) (v : Verdict) where
  -- `v` leads every other verdict by the limit.
  abbrev pub LeadsClearly : Type 0
  LeadsClearly = (w : Verdict) → (w ≡ v) ⊎ (g w +ℤ limit ≤ℤ g v)

  wins : pos 0 <ℤ limit → LeadsClearly → winner g ≡ v
  wins positive lead = elim (lead (winner g)) [
    | inl e ↦ e
    | inr le ↦ absurd (ground (arith, winner-is_max g v, +ℤ_parts (g (winner g)) limit))
  ]

other : (v : Verdict) → (u : Verdict) × (u ≢ v)
other monitor = (alert, λ e. cc)
other alert = (monitor, λ e. cc)
other _ = (monitor, λ e. cc)

thin_of_lead : (t s limit : ℤ) → s +ℤ limit ≤ℤ t → (ltb_ℤ (t -ℤ s) limit && ltb_ℤ (pos 0) t) ≡ false
thin_of_lead t s limit h = ground (arith, +ℤ_parts s limit, -ℤ_parts t s)

module _ (g : Verdict → ℤ) (limit : ℤ) (v : Verdict) (lead : LeadsClearly g limit v) where
  lead-is_thin : winner g ≡ v → is_thin limit (ranked (table g)) ≡ false
  unfolding is_thin winner
  lead-is_thin e =
      let l = ranked (table g) in
      let (u, ne) = other v in
      let within : All (λ x. (x.0 ≡ v) ⊎ (x.1 +ℤ limit ≤ℤ g v)) l =
        All-ranked (λ x. (x.0 ≡ v) ⊎ (x.1 +ℤ limit ≤ℤ g v)) (table g)
          (
            lead monitor,
            (lead alert, (lead contain, (lead failover, (lead heal, (lead escalate, tt))))),
          ) in
      let le : second l +ℤ limit ≤ℤ g v =
        second_of_other (λ n. n +ℤ limit ≤ℤ g v) u v l e ne
          (count_key-ranked v (table g) ∙ count_key-table v g)
          (count_key-ranked u (table g) ∙ count_key-table u g) within in
      thin_of_lead (top l).1 (second l) limit (rw (winner_score g ∙ ap g e) le)

-- Where no hard gate fires and the escalation margin is positive, a verdict whose sum of weights
-- leads that of every other verdict by at least the margin is the decision, and is not escalated.
pub clear_lead_decides :
    (e : Engine) (f : Fact) (v : Verdict)
    → NoGate f e.rules
    → pos 0 <ℤ e.escalate_margin
    → LeadsClearly (weight_for e.rules f) e.escalate_margin v
    → ((decide e f).verdict ≡ v)
      × ((decide e f).action ≡ verdict_action v)
      × ((decide e f).escalated ≡ false)
unfolding conclude winner
clear_lead_decides e f v none_fires positive lead =
    let g = weight_for e.rules f in
    let won : winner g ≡ v = wins g e.escalate_margin v positive lead in
    rw (decide-eq-conclude e f none_fires, lead-is_thin g e.escalate_margin v lead won)
      (won, ap verdict_action won, refl)
