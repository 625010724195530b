-- ===== src/Prelude/Dict.antt =====
-- Python's `dict` with text keys, in insertion order: `d.get(k)` and `d[k] = v`.
use Prim.Native.String.{String}
use mathlib.Core.Path.{◌≡◌, refl, sym, subst}
use mathlib.Core.Option.{Option, none, some}
use mathlib.Core.List.{List, [], ◌∷◌}
use native.Mathlib.Omega.{arith}
use text.Mathlib.Text.{◌==◌ as str_eq}
use text.Mathlib.TextEquality.{eq_iff}
use ganglion_oob.Prelude.Tests.{if◌then◌else◌, Bool-cases}
use ganglion_oob.Prelude.Lists.{All}
use mathlib.Core.Logic.{◌≢◌, inl, inr}
use mathlib.Core.Option

abbrev pub Dict {ℓ} : Type ℓ → Type ℓ
Dict V = List (String × V)

module _ {ℓ} {V : Type ℓ} where
  unfoldable pub lookup : String → Dict V → Option V
  lookup k [] = none
  lookup k ((j, v) ∷ d) = if str_eq j k then some v else lookup k d

  -- The place of a key that is there already is kept.
  unfoldable pub insert : String → V → Dict V → Dict V
  insert k v [] = (k, v) ∷ []
  insert k v ((j, w) ∷ d) = if str_eq j k then (j, v) ∷ d else (j, w) ∷ insert k v d

  pub lookup-insert :
      (k j : String) (v : V) (d : Dict V)
      → lookup j (insert k v d) ≡ (if str_eq k j then some v else lookup j d)
  unfolding lookup insert
  lookup-insert k j v [] = refl
  lookup-insert k j v ((i, w) ∷ d) =
      ground (arith, eq_iff k j, eq_iff i k, eq_iff i j, lookup-insert k j v d)

module _ {ℓ} {V : Type ℓ} where
  -- The value of a key that is there is replaced by a function of it. A key stands once in a dict.
  unfoldable pub modify : String → (V → V) → Dict V → Dict V
  modify k f [] = []
  modify k f ((j, v) ∷ d) = (j, if str_eq j k then f v else v) ∷ modify k f d

  pub lookup-modify :
      (k j : String) (f : V → V) (d : Dict V)
      → lookup j (modify k f d) ≡ (if str_eq k j then Option.map f (lookup k d) else lookup j d)
  unfolding lookup modify
  lookup-modify k j f [] = ground arith
  lookup-modify k j f ((i, w) ∷ d) =
      ground (arith, eq_iff k j, eq_iff i k, eq_iff i j, lookup-modify k j f d)

  pub modify-modify :
      (k : String) (f g : V → V) (d : Dict V)
      → modify k g (modify k f d) ≡ modify k (λ v. g (f v)) d
  unfolding modify
  modify-modify k f g [] = refl
  modify-modify k f g ((j, w) ∷ d) = elim (Bool-cases (str_eq j k)) [
    | inl e ↦ rw (e, modify-modify k f g d)
    | inr e ↦ rw (e, modify-modify k f g d)
  ]

module _ {ℓ κ} {V : Type ℓ} (P : String × V → Type κ) where
  pub All-insert : (k : String) (v : V) (d : Dict V) → P (k, v) → All P d → All P (insert k v d)
  unfolding insert
  All-insert k v [] p h = (p, tt)
  All-insert k v ((j, w) ∷ d) p h = elim (Bool-cases (str_eq j k)) [
    | inl e ↦ rw e (subst (λ i. P (i, v)) (sym ((eq_iff j k).0 e)) p, h.1)
    | inr e ↦ rw e (h.0, All-insert k v d p h.1)
  ]

  pub All-lookup : (k : String) (v : V) (d : Dict V) → All P d → lookup k d ≡ some v → P (k, v)
  unfolding lookup
  All-lookup k v [] h e = absurd (cc e)
  All-lookup k v ((j, w) ∷ d) h e = elim (Bool-cases (str_eq j k)) [
    | inl t ↦
        let found : some w ≡ some v = rw t at e in
        let same : w ≡ v = cc found in
        subst (λ i. P (i, v)) ((eq_iff j k).0 t) (subst (λ x. P (j, x)) same h.0)
    | inr t ↦ All-lookup k v d h.1 (rw t at e)
  ]

module _ {ℓ κ μ} {V : Type ℓ} (P : String × V → Type κ) (Q : String × V → Type μ) where
  pub All-modify :
      (k : String) (f : V → V) (d : Dict V)
      → ((j : String) (v : V) → j ≢ k → P (j, v) → Q (j, v))
      → ((v : V) → P (k, v) → Q (k, f v))
      → All P d
      → All Q (modify k f d)
  unfolding modify
  All-modify k f [] keep change h = tt
  All-modify k f ((j, w) ∷ d) keep change h = elim (Bool-cases (str_eq j k)) [
    | inl e ↦
        let same : j ≡ k = (eq_iff j k).0 e in
        rw e (
          subst (λ i. Q (i, f w)) (sym same) (change w (subst (λ i. P (i, w)) same h.0)),
          All-modify k f d keep change h.1,
        )
    | inr e ↦
        let different : j ≢ k = λ same. cc (e, (eq_iff j k).1 same) in
        rw e (keep j w different h.0, All-modify k f d keep change h.1)
  ]
