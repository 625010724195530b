-- ===== src/Alerts/Dedupe.antt =====
-- Repeats of an alert within the window are collapsed.
use ganglion_oob.Prelude.{
  ℕ, ◌+◌, ◌≡◌, ◌∙◌, ◌≤◌, refl, sym, ap, String, some, false, List, [], ◌∷◌, ◌++◌, arith, ltb, ◌==◌,
  Bool-cases, Option-cases, inl, inr, All, All-append, All-map, str_eq, eq_iff,
}
use ganglion_oob.Prelude.Dict.{Dict, lookup, insert, lookup-insert}
use ganglion_oob.Alerts.Queue.{
  Alert, AlertManager, alert_min_delta, is_repeat, dedupe_key, new_alert, raise_alert, get_alert,
  change, new_manager, AnalystAction, act, acknowledge, assign, escalate, close,
  mark_false_positive, add_note, is_empty_text, work, Step, raises, works, Reach, here, next,
}

abbrev pub key_of : Alert → String
key_of a = dedupe_key a.vm_id a.event_type

-- The second alert does not repeat the first.
abbrev pub IsApart : ℕ → Alert → Alert → Type 0
IsApart window a b = key_of a ≡ key_of b → a.created_ts + window ≤ b.created_ts

-- Of two alerts with the same key the later one is at least the window younger.
abbrev pub IsSpaced : ℕ → List Alert → Type 0
IsSpaced window [] = Unit
IsSpaced window (a ∷ xs) = All (IsApart window a) xs × IsSpaced window xs

-- The time that is kept for an alert's key is not before the alert.
abbrev IsCovered : Dict ℕ → Alert → Type 0
IsCovered d a = (last : ℕ) × (lookup (key_of a) d ≡ some last) × (a.created_ts ≤ last)

record IsDeduped (window : ℕ) (m : AlertManager) : Type 0 where
  configured : m.dedupe_window ≡ window
  spaced : IsSpaced window m.alerts
  covered : All (IsCovered m.dedupe) m.alerts

IsSpaced-snoc :
    (window : ℕ) (xs : List Alert) (b : Alert)
    → IsSpaced window xs
    → All (λ (a : Alert). IsApart window a b) xs
    → IsSpaced window (xs ++ b ∷ [])
IsSpaced-snoc window [] b s h = (tt, tt)
IsSpaced-snoc window (a ∷ xs) b s h =
    (All-append (IsApart window a) xs (b ∷ []) s.0 (h.0, tt), IsSpaced-snoc window xs b s.1 h.1)

-- A new alert is apart from those that the kept times cover.
IsApart-covered :
    (window now : ℕ) (d : Dict ℕ) (a b : Alert)
    → b.created_ts ≡ now
    → is_repeat window now (lookup (key_of b) d) ≡ false
    → IsCovered d a
    → IsApart window a b
unfolding is_repeat
IsApart-covered window now d a b at_now new (last, kept, le) same =
    let found : lookup (key_of b) d ≡ some last =
      ap (λ (k : String). lookup k d) (sym same) ∙ kept in
    let apart : ltb now (last + window) ≡ false = rw found at new in ground arith

IsCovered-insert :
    (window now : ℕ) (d : Dict ℕ) (a b : Alert)
    → b.created_ts ≡ now
    → is_repeat window now (lookup (key_of b) d) ≡ false
    → IsCovered d a
    → IsCovered (insert (key_of b) now d) a
unfolding is_repeat
IsCovered-insert window now d a b at_now new (last, kept, le) =
    elim (Bool-cases (str_eq (key_of b) (key_of a))) [
      | inl q ↦
          let same : key_of b ≡ key_of a = (eq_iff (key_of b) (key_of a)).0 q in
          let apart = IsApart-covered window now d a b at_now new (last, kept, le) (sym same) in
          (now, rw (lookup-insert (key_of b) (key_of a) now d, q) refl, omega arith)
      | inr q ↦ (last, rw (lookup-insert (key_of b) (key_of a) now d, q) kept, le)
    ]

-- An analyst's action keeps what the deduplication looks at.
kept_by-act :
    (w : AnalystAction) (a : Alert)
    → (key_of (act w a) ≡ key_of a) × ((act w a).created_ts ≡ a.created_ts)
unfolding act
kept_by-act (acknowledge by) a = (refl, refl)
kept_by-act (assign assignee by) a = (refl, refl)
kept_by-act (escalate by) a = (refl, refl)
kept_by-act (close by text) a = elim (Bool-cases (is_empty_text text)) [
  | inl q ↦ rw q (refl, refl)
  | inr q ↦ rw q (refl, refl)
]
kept_by-act (mark_false_positive by text) a = elim (Bool-cases (is_empty_text text)) [
  | inl q ↦ rw q (refl, refl)
  | inr q ↦ rw q (refl, refl)
]
kept_by-act (add_note text by short) a = (refl, refl)

-- The two alerts have the same key and time.
abbrev IsKept : Alert → Alert → Type 0
IsKept a' a = (key_of a' ≡ key_of a) × (a'.created_ts ≡ a.created_ts)

All-change :
    (P Q : Alert → Type 0) (n : ℕ) (w : AnalystAction) (xs : List Alert)
    → ((a' a : Alert) → IsKept a' a → P a → Q a')
    → All P xs
    → All Q (change n (act w) xs)
unfolding change
All-change P Q n w [] f h = tt
All-change P Q n w (a ∷ xs) f h = elim (Bool-cases (a.alert_id == n)) [
  | inl q ↦ rw q (f (act w a) a (kept_by-act w a) h.0, All-change P Q n w xs f h.1)
  | inr q ↦ rw q (f a a (refl, refl) h.0, All-change P Q n w xs f h.1)
]

IsApart-kept :
    (window : ℕ) (a a' b b' : Alert)
    → IsKept a' a
    → IsKept b' b
    → IsApart window a b
    → IsApart window a' b'
IsApart-kept window a a' b b' (ka, ta) (kb, tb) apart same =
    omega (arith, ta, tb, apart (sym ka ∙ same ∙ kb))

IsSpaced-change :
    (window n : ℕ) (w : AnalystAction) (xs : List Alert)
    → IsSpaced window xs
    → IsSpaced window (change n (act w) xs)
unfolding change
IsSpaced-change window n w [] s = tt
IsSpaced-change window n w (a ∷ xs) s = elim (Bool-cases (a.alert_id == n)) [
  | inl q ↦ rw q (
    All-change (IsApart window a) (IsApart window (act w a)) n w xs
        (λ b' b k. IsApart-kept window a (act w a) b b' (kept_by-act w a) k) s.0,
    IsSpaced-change window n w xs s.1,
  )
  | inr q ↦ rw q (
    All-change (IsApart window a) (IsApart window a) n w xs
        (λ b' b k. IsApart-kept window a a b b' (refl, refl) k) s.0,
    IsSpaced-change window n w xs s.1,
  )
]

IsCovered-kept : (d : Dict ℕ) (a' a : Alert) → IsKept a' a → IsCovered d a → IsCovered d a'
IsCovered-kept d a' a (k, t) (last, e, le) =
    (last, ap (λ (x : String). lookup x d) k ∙ e, omega (arith, t))

Step-IsDeduped :
    (window : ℕ) {m m' : AlertManager} → Step m m' → IsDeduped window m → IsDeduped window m'
unfolding raise_alert work
Step-IsDeduped window (raises {m = m} now r) s = elim (Bool-cases (ltb r.delta alert_min_delta)) [
  | inl small ↦ rw (small, raise_alert) s
  | inr big ↦
      elim (Bool-cases
        (is_repeat m.dedupe_window now (lookup (dedupe_key r.vm_id r.event_type) m.dedupe))) [
          | inl again ↦ rw (big, again, raise_alert) s
          | inr new ↦
              let b = new_alert now r (m.seq + 1) in
              let fresh : is_repeat window now (lookup (key_of b) m.dedupe) ≡ false =
                rw (s.configured) at new in
              rw (big, new, raise_alert)
                (record {
                  configured = s.configured;
                  spaced = IsSpaced-snoc window m.alerts b s.spaced (
                      All-map (IsCovered m.dedupe) (λ (a : Alert). IsApart window a b) m.alerts
                        (λ a. IsApart-covered window now m.dedupe a b refl fresh) s.covered);
                  covered =
                      All-append (IsCovered (insert (key_of b) now m.dedupe)) m.alerts (b ∷ [])
                        (All-map (IsCovered m.dedupe) (IsCovered (insert (key_of b) now m.dedupe))
                          m.alerts (λ a. IsCovered-insert window now m.dedupe a b refl fresh)
                          s.covered)
                        (
                          (
                            now,
                            rw
                                (
                                  lookup-insert (key_of b) (key_of b) now m.dedupe,
                                  (eq_iff (key_of b) (key_of b)).1 refl,
                                )
                                refl,
                            omega arith,
                          ),
                          tt,
                        );
                })
        ]
]
Step-IsDeduped window (works {m = m} n w) s = elim (Option-cases (get_alert n m.alerts)) [
  | inl missing ↦ rw (missing, work) s
  | inr (a, found) ↦
      rw (found, work)
        (record {
          configured = s.configured;
          spaced = IsSpaced-change window n w m.alerts s.spaced;
          covered =
              All-change (IsCovered m.dedupe) (IsCovered m.dedupe) n w m.alerts
                (IsCovered-kept m.dedupe) s.covered;
        })
]

Reach-IsDeduped :
    (window : ℕ) {m m' : AlertManager} → IsDeduped window m → Reach m m' → IsDeduped window m'
Reach-IsDeduped window s here = s
Reach-IsDeduped window s (next r step) = Step-IsDeduped window step (Reach-IsDeduped window s r)

-- Deduplication: in a queue that started empty, of two alerts with the same machine and event type
-- the later one was raised at least the window after the earlier, whatever was reported in between
-- and however analysts dealt with the alerts.
pub Reach-IsSpaced :
    (window : ℕ) {m : AlertManager} → Reach (new_manager window) m → IsSpaced window m.alerts
Reach-IsSpaced window r =
    (Reach-IsDeduped window (record { configured = refl; spaced = tt; covered = tt }) r).spaced
