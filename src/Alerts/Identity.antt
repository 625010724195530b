-- ===== src/Alerts/Identity.antt =====
-- The ids of the alerts, and what an analyst's action changes.
use ganglion_oob.Prelude.{
  ℕ, suc, ◌+◌, ◌≡◌, ◌∙◌, refl, sym, ap, none, some, true, false, List, [], ◌∷◌, ◌++◌, length,
  length-append, arith, ltb, if◌then◌else◌, ◌==◌, Bool-cases, Option-cases, inl, inr,
}
use ganglion_oob.Prelude.Dict.{lookup}
use ganglion_oob.Alerts.Queue.{
  Alert, AlertManager, alert_min_delta, is_repeat, dedupe_key, new_alert, raise_alert, get_alert,
  change, AnalystAction, act, acknowledge, assign, escalate, close, mark_false_positive, add_note,
  work, Step, raises, works, Reach, here, next,
}

-- The alerts are numbered from a number on, one after the other.
abbrev pub IsNumbered : ℕ → List Alert → Type 0
IsNumbered n [] = Unit
IsNumbered n (a ∷ xs) = (a.alert_id ≡ n) × IsNumbered (n + 1) xs

-- The alerts are numbered from 1, and the counter is their number.
pub record IsSound (m : AlertManager) : Type 0 where
  pub numbered : IsNumbered 1 m.alerts
  pub counted : m.seq ≡ length m.alerts

IsNumbered-append :
    (n : ℕ) (xs : List Alert) (a : Alert)
    → IsNumbered n xs
    → a.alert_id ≡ n + length xs
    → IsNumbered n (xs ++ a ∷ [])
IsNumbered-append n [] a h e = (omega arith, tt)
IsNumbered-append n (b ∷ xs) a h e = (h.0, IsNumbered-append (n + 1) xs a h.1 (omega arith))

alert_id-act : (w : AnalystAction) (a : Alert) → (act w a).alert_id ≡ a.alert_id
unfolding act
alert_id-act (acknowledge by) a = refl
alert_id-act (assign assignee by) a = refl
alert_id-act (escalate by) a = refl
alert_id-act (close by text) a = ground arith
alert_id-act (mark_false_positive by text) a = ground arith
alert_id-act (add_note text by short) a = refl

IsNumbered-change :
    (n k : ℕ) (w : AnalystAction) (xs : List Alert)
    → IsNumbered n xs
    → IsNumbered n (change k (act w) xs)
unfolding change
IsNumbered-change n k w [] h = tt
IsNumbered-change n k w (a ∷ xs) h = elim (Bool-cases (a.alert_id == k)) [
  | inl q ↦ rw q (alert_id-act w a ∙ h.0, IsNumbered-change (n + 1) k w xs h.1)
  | inr q ↦ rw q (h.0, IsNumbered-change (n + 1) k w xs h.1)
]

length-change : (k : ℕ) (f : Alert → Alert) (xs : List Alert) → length (change k f xs) ≡ length xs
unfolding change
length-change k f [] = refl
length-change k f (a ∷ xs) = ap suc (length-change k f xs)

Step-IsSound : {m m' : AlertManager} → Step m m' → IsSound m → IsSound m'
unfolding raise_alert work
Step-IsSound (raises {m = m} now r) s = elim (Bool-cases (ltb r.delta alert_min_delta)) [
  | inl small ↦ rw (small, raise_alert) s
  | inr big ↦
      elim (Bool-cases
        (is_repeat m.dedupe_window now (lookup (dedupe_key r.vm_id r.event_type) m.dedupe))) [
          | inl again ↦ rw (big, again, raise_alert) s
          | inr new ↦
              rw (big, new, raise_alert)
                (record {
                  numbered =
                      IsNumbered-append 1 m.alerts (new_alert now r (m.seq + 1)) s.numbered
                        (omega (arith, s.counted));
                  counted = omega (
                    arith,
                    s.counted,
                    length-append {0} m.alerts (new_alert now r (m.seq + 1) ∷ []),
                  );
                })
        ]
]
Step-IsSound (works {m = m} n w) s = elim (Option-cases (get_alert n m.alerts)) [
  | inl missing ↦ rw (missing, work) s
  | inr (a, found) ↦
      rw (found, work)
        (record {
          numbered = IsNumbered-change 1 n w m.alerts s.numbered;
          counted = s.counted ∙ sym (length-change n (act w) m.alerts);
        })
]

-- Ids: in every reachable queue the alerts are numbered 1, 2, 3 and so on in the order in which they
-- were raised, so no id is given twice and none is lost, whatever analysts do.
pub Reach-IsSound : {m m' : AlertManager} → IsSound m → Reach m m' → IsSound m'
Reach-IsSound s here = s
Reach-IsSound s (next r step) = Step-IsSound step (Reach-IsSound s r)

get_alert-change :
    (n k : ℕ) (w : AnalystAction) (xs : List Alert)
    → get_alert k (change n (act w) xs)
      ≡ elim (get_alert k xs) [ none ↦ none | some a ↦ some (if n == k then act w a else a) ]
unfolding get_alert change
get_alert-change n k w [] = refl
get_alert-change n k w (a ∷ xs) = ground (arith, alert_id-act w a, get_alert-change n k w xs)

unchanged :
    (n k : ℕ) (w : AnalystAction) (xs : List Alert)
    → get_alert n xs ≡ none
    → get_alert k xs
      ≡ elim (get_alert k xs) [ none ↦ none | some a ↦ some (if n == k then act w a else a) ]
unchanged n k w xs missing = elim (Option-cases (get_alert k xs)) [
  | inl e ↦ rw e refl
  | inr (a, e) ↦ elim (Bool-cases (n == k)) [
    | inl same ↦
        let n_is_k : n ≡ k = ground arith in
        let no_way : none ≡ some a = sym missing ∙ ap (λ (i : ℕ). get_alert i xs) n_is_k ∙ e in
        absurd (cc no_way)
    | inr other ↦ rw (e, other) refl
  ]
]

-- Triage: an analyst's action on an alert changes that alert xs the action says, and no other; on an
-- id that is not there it changes nothing and answers that.
pub work-get_alert :
    (n k : ℕ) (w : AnalystAction) (m : AlertManager)
    → (get_alert k (work n w m).0.alerts ≡ elim (get_alert k m.alerts) [
      | none ↦ none
      | some a ↦ some (if n == k then act w a else a)
    ])
      × ((work n w m).1 ≡ elim (get_alert n m.alerts) [ none ↦ false | some a ↦ true ])
unfolding work
work-get_alert n k w m = elim (Option-cases (get_alert n m.alerts)) [
  | inl missing ↦ (rw (missing, work) (unchanged n k w m.alerts missing), rw (missing, work) refl)
  | inr (a, found) ↦ (rw (found, work) (get_alert-change n k w m.alerts), rw (found, work) refl)
]
