-- ===== src/Control/Isolation/Window.antt =====
-- What the rolling window holds.
use ganglion_oob.Prelude.{
  ℕ, ◌+◌, ◌≤◌, min, List, [], ◌∷◌, ◌≡◌, refl, ap, inl, inr, Bool-cases, if◌then◌else◌, ltb, arith,
  All,
}
use ganglion_oob.Control.Scoring.{
  ScoredEvent, VmState, rolling_window, purge_from, sum_deltas, recalculate_score,
}

-- The deltas of the events that are not older than the window, in any place.
pub recent_sum : ℕ → List ScoredEvent → ℕ
recent_sum now [] = 0
recent_sum now (e ∷ l) =
    (if ltb (e.timestamp + rolling_window) now then 0 else e.score_delta) + recent_sum now l

-- In order of time.
abbrev pub IsOrdered : List ScoredEvent → Type 0
IsOrdered [] = Unit
IsOrdered (e ∷ l) = All (λ f. e.timestamp ≤ f.timestamp) l × IsOrdered l

recent_sum-kept :
    (now t : ℕ) (l : List ScoredEvent)
    → now ≤ t + rolling_window
    → All (λ f. t ≤ f.timestamp) l
    → recent_sum now l ≡ sum_deltas l
unfolding recent_sum sum_deltas
recent_sum-kept now t [] h all = refl
recent_sum-kept now t (e ∷ l) h all = ground (arith, recent_sum-kept now t l h all.1)

purge_from-recent :
    (now : ℕ) (l : List ScoredEvent)
    → IsOrdered l
    → sum_deltas (purge_from now l) ≡ recent_sum now l
unfolding recent_sum sum_deltas purge_from
purge_from-recent now [] h = refl
purge_from-recent now (e ∷ l) h = elim (Bool-cases (ltb (e.timestamp + rolling_window) now)) [
  | inl t ↦ rw t (omega (arith, purge_from-recent now l h.1))
  | inr t ↦ rw t (ground (arith, recent_sum-kept now e.timestamp l (ground arith) h.0))
]

-- For events in order of time the score is the sum of the deltas of exactly those in the last
-- minute, capped at 200.
pub recalculate-recent :
    (now : ℕ) (vm : VmState)
    → IsOrdered vm.scored_events
    → (recalculate_score now vm).threat_score ≡ min (recent_sum now vm.scored_events) 200
unfolding recalculate_score
recalculate-recent now vm h = ap (λ n. min n 200) (purge_from-recent now vm.scored_events h)
