-- ===== src/Decision.antt =====
-- decision_engine/decision_engine.py: the response that is chosen from the facts about an event.
-- The types, and `DecisionEngine.decide` over any rule set; the shipped rules are in Policy.
pub mod Ranking
pub mod Gates
pub mod Scores
pub mod Margin
pub mod Lead
pub mod Policy
mod Tests
use ganglion_oob.Prelude.{
  ℕ, zero, String, Bool, true, false, ◌&&◌, not, Option, none, some, List, [], ◌∷◌, ◌++◌, ◌==◌,
  str_eq, if◌then◌else◌,
}
use ganglion_oob.Prelude.Int.{ℤ, pos, ◌+ℤ◌, ◌-ℤ◌, leb_ℤ, ltb_ℤ, pos_part}
use ganglion_oob.Prelude.Dict.{Dict}

pub data Verdict : Type 0 where
  monitor alert contain failover heal escalate : Verdict

pub data Action : Type 0 where
  nothing raise_alert isolate_host promote_standby restore_snapshot notify_analyst : Action

-- `_VERDICT_ACTION`
pub verdict_action : Verdict → Action
verdict_action monitor = nothing
verdict_action alert = raise_alert
verdict_action contain = isolate_host
verdict_action failover = promote_standby
verdict_action heal = restore_snapshot
verdict_action escalate = notify_analyst

-- Scores are never negative in the control plane, and only `>= 100` is asked of them.
pub record Fact : Type 0 where
  pub event_type : String
  pub severity : String
  pub score : ℕ
  pub techniques : List String
  pub asset_criticality : String
  pub has_standby : Bool
  pub reversible : Bool
  pub business_hours : Bool
  pub repeat_offender : Bool
  pub extra : Dict String

-- `_SEV.get(self.severity, 0)`
pub sev_rank : Fact → ℕ
sev_rank f =
    if str_eq f.severity "low"
    then 1
    else if str_eq f.severity "medium"
    then 2
    else if str_eq f.severity "high"
    then 3
    else if str_eq f.severity "critical"
    then 4
    else 0

-- `test` may raise, which is `none`.
pub record Condition : Type 0 where
  pub name : String
  pub test : Fact → Option Bool

-- A test that raises does not hold.
pub holds : Condition → Fact → Bool
holds c f = elim (c.test f) [ none ↦ false | some b ↦ b ]

-- An f-string is kept as its parts.
pub data Rationale : Type 0 where
  text : String → Rationale
  thin_margin : ℤ → ℤ → Verdict → Rationale

pub record Rule : Type 0 where
  pub id : String
  pub conditions : List Condition
  pub verdict : Verdict
  pub weight : ℤ
  pub rationale : Rationale
  pub hard_gate : Bool

pub all_hold : List Condition → Fact → Bool
all_hold [] f = true
all_hold (c ∷ cs) f = holds c f && all_hold cs f

pub fires : Rule → Fact → Bool
fires r f = all_hold r.conditions f

pub record FiredRule : Type 0 where
  pub id : String
  pub verdict : Verdict
  pub weight : ℤ
  pub rationale : Rationale

-- The confidence is the fraction `num / den`, which the program rounds to three places.
pub record Confidence : Type 0 where
  pub num : ℤ
  pub den : ℤ

pub record Decision : Type 0 where
  pub verdict : Verdict
  pub action : Action
  pub confidence : Confidence
  pub fired : List FiredRule
  pub scores : List (Verdict × ℤ)
  pub escalated : Bool

pub record Engine : Type 0 where
  pub rules : List Rule
  pub escalate_margin : ℤ

-- A verdict's place in the enumeration, by which verdicts are compared.
abbrev pub index : Verdict → ℕ
index monitor = 0
index alert = 1
index contain = 2
index failover = 3
index heal = 4
index escalate = 5

abbrev pub verdict_eq : Verdict → Verdict → Bool
verdict_eq u v = index u == index v

abbrev pub Scores : Type 0
Scores = List (Verdict × ℤ)

-- `{v.value: 0 for v in Verdict}`
abbrev pub no_scores : Scores
no_scores =
    (monitor, pos 0)
    ∷ (alert, pos 0)
    ∷ (contain, pos 0)
    ∷ (failover, pos 0)
    ∷ (heal, pos 0)
    ∷ (escalate, pos 0)
    ∷ []

-- `scores[v] += w`
pub add_score : Verdict → ℤ → Scores → Scores
add_score v w [] = []
add_score v w ((u, s) ∷ l) =
    let rest = add_score v w l in if verdict_eq u v then (u, s +ℤ w) ∷ l else (u, s) ∷ rest

abbrev pub fired_entry : Rule → FiredRule
fired_entry r = record {
  id = r.id;
  verdict = r.verdict;
  weight = r.weight;
  rationale = r.rationale;
}

-- The first loop: the first hard gate that fires.
pub first_gate : List Rule → Fact → Option Rule
first_gate [] f = none
first_gate (r ∷ rs) f =
    let rest = first_gate rs f in if r.hard_gate && fires r f then some r else rest

-- Whether the second loop counts a rule.
pub counts : Rule → Fact → Bool
counts r f = not r.hard_gate && fires r f

-- The second loop, over the scores and the fired entries so far.
pub accumulate : List Rule → Fact → Scores → List FiredRule → Scores × List FiredRule
accumulate [] f scores fired = (scores, fired)
accumulate (r ∷ rs) f scores fired =
    let go = counts r f in
    accumulate rs f (if go then add_score r.verdict r.weight scores else scores)
      (if go then fired ++ fired_entry r ∷ [] else fired)

-- `sorted(..., reverse=True)` keeps the order of entries with equal scores.
pub place : Verdict × ℤ → Scores → Scores
place x [] = x ∷ []
place x (y ∷ ys) = let rest = place x ys in if leb_ℤ y.1 x.1 then x ∷ y ∷ ys else y ∷ rest

pub ranked : Scores → Scores
unfolding place
ranked [] = []
ranked (x ∷ xs) = place x (ranked xs)

-- `ranked[0]`; the engine's scores are never empty.
abbrev pub top : Scores → Verdict × ℤ
top [] = (monitor, pos 0)
top (x ∷ xs) = x

-- `ranked[1][1] if len(ranked) > 1 else 0`
abbrev pub second : Scores → ℤ
second [] = pos 0
second (x ∷ []) = pos 0
second (x ∷ y ∷ ys) = y.1

-- `sum(max(0, s) for s in scores.values())`
pub positive_total : Scores → ℤ
positive_total [] = pos 0
positive_total ((v, s) ∷ l) = pos (pos_part s) +ℤ positive_total l

-- `{k: v for k, v in scores.items() if v}`
pub nonzero : Scores → Scores
nonzero [] = []
nonzero ((v, pos zero) ∷ l) = nonzero l
nonzero (e ∷ l) = e ∷ nonzero l

-- `total or 1`
abbrev pub or_one : ℤ → ℤ
or_one (pos zero) = pos 1
or_one n = n

abbrev pub gate_decision : Rule → Decision
gate_decision r = record {
  verdict = r.verdict;
  action = verdict_action r.verdict;
  confidence = record { num = pos 1; den = pos 1 };
  fired = fired_entry r ∷ [];
  scores = (r.verdict, r.weight) ∷ [];
  escalated = verdict_eq r.verdict escalate;
}

-- `margin < self.escalate_margin and top_s > 0`
pub is_thin : ℤ → Scores → Bool
is_thin limit order = ltb_ℤ ((top order).1 -ℤ second order) limit && ltb_ℤ (pos 0) (top order).1

-- The entry that explains an escalation.
pub escalation : ℤ → Scores → FiredRule
escalation limit order = record {
  id = "ESC";
  verdict = escalate;
  weight = pos 0;
  rationale = thin_margin ((top order).1 -ℤ second order) limit (top order).0;
}

-- The third part of `decide`: the winner, its confidence, and escalation on a thin margin.
pub conclude : ℤ → Scores → List FiredRule → Decision
conclude limit scores fired =
    let order = ranked scores in
    let (top_v, top_s) = top order in
    let thin = is_thin limit order in
    let verdict = if thin then escalate else top_v in
    record {
      verdict = verdict;
      action = verdict_action verdict;
      confidence = record { num = top_s; den = or_one (positive_total scores) };
      fired = if thin then fired ++ escalation limit order ∷ [] else fired;
      scores = nonzero scores;
      escalated = thin;
    }

pub decide_weighted : Engine → Fact → Decision
decide_weighted e f =
    let (scores, fired) = accumulate e.rules f no_scores [] in
    conclude e.escalate_margin scores fired

pub decide : Engine → Fact → Decision
decide e f = elim (first_gate e.rules f) [ none ↦ decide_weighted e f | some r ↦ gate_decision r ]
