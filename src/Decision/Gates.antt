-- ===== src/Decision/Gates.antt =====
-- The hard gates of `decide`: the first loop, which returns before any score is added.
use ganglion_oob.Prelude.{
  ◌≡◌, refl, true, false, some, none, List, [], ◌∷◌, ◌++◌, arith, All, ◌&&◌, ap, ◌∙◌,
}
use ganglion_oob.Prelude.Int.{pos}
use ganglion_oob.Decision.{
  Fact, Rule, Engine, fires, first_gate, fired_entry, verdict_eq, escalate, decide, decide_weighted,
  gate_decision,
}

-- No rule of the list is a hard gate that fires.
abbrev pub NoGate : Fact → List Rule → Type 0
NoGate f = All (λ r. (r.hard_gate && fires r f) ≡ false)

first_gate-append :
    (f : Fact) (before : List Rule) (g : Rule) (after : List Rule)
    → NoGate f before
    → (g.hard_gate && fires g f) ≡ true
    → first_gate (before ++ g ∷ after) f ≡ some g
unfolding first_gate
first_gate-append f [] g after h e = ground arith
first_gate-append f (r ∷ before) g after h e = rw (h.0) (first_gate-append f before g after h.1 e)

pub first_gate-none : (f : Fact) (rules : List Rule) → NoGate f rules → first_gate rules f ≡ none
unfolding first_gate
first_gate-none f [] h = refl
first_gate-none f (r ∷ rules) h = rw (h.0) (first_gate-none f rules h.1)

decide-gate :
    (e : Engine) (f : Fact) (g : Rule)
    → first_gate e.rules f ≡ some g
    → decide e f ≡ gate_decision g
unfolding decide
decide-gate e f g h = rw (h, decide)

-- The first hard gate that fires decides alone, whatever the rules after it and all the weights
-- say: the verdict is the gate's, at full confidence, with the gate as the only fired rule, and it
-- is marked as escalated exactly when the gate's verdict is to escalate.
pub gate_decides :
    (e : Engine) (f : Fact) (before : List Rule) (g : Rule) (after : List Rule)
    → e.rules ≡ before ++ g ∷ after
    → NoGate f before
    → (g.hard_gate && fires g f) ≡ true
    → ((decide e f).verdict ≡ g.verdict)
      × ((decide e f).confidence ≡ record { num = pos 1; den = pos 1 })
      × ((decide e f).fired ≡ fired_entry g ∷ [])
      × ((decide e f).escalated ≡ verdict_eq g.verdict escalate)
gate_decides e f before g after split none_before fired =
    let found : first_gate e.rules f ≡ some g =
      ap (λ (rules : List Rule). first_gate rules f) split
      ∙ first_gate-append f before g after none_before fired in
    rw (decide-gate e f g found) (refl, refl, refl, refl)

-- Without a gate the weights decide.
pub decide-eq-weighted :
    (e : Engine) (f : Fact) → NoGate f e.rules → decide e f ≡ decide_weighted e f
unfolding decide
decide-eq-weighted e f h = rw (first_gate-none f e.rules h, decide)
