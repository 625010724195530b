-- ===== src/Control/VmId.antt =====
-- host_control_plane/control_center.py: the identifier of a virtual machine, cut down to a safe form.
use Prim.Native.Char.{code}
use ganglion_oob.Prelude.{
  ℕ, zero, suc, ◌≤◌, String, Option, none, some, Bool, true, false, ◌&&◌, ◌||◌, List, [], ◌∷◌, All,
  length, ◌≡◌, refl, ap, inl, inr, leb, ◌==◌, str_eq, if◌then◌else◌, Bool-cases, eq_iff, arith,
}

-- `[A-Za-z0-9._-]`
unfoldable pub is_safe : ℕ → Bool
is_safe c =
    (leb b'A' c && leb c b'Z')
    || (leb b'a' c && leb c b'z')
    || (leb b'0' c && leb c b'9')
    || c == b'.'
    || c == b'_'
    || c == b'-'

-- `re.sub(r"[^A-Za-z0-9._-]", "", vid)[:n]`
unfoldable pub clean : ℕ → String → String
clean n String.[] = String.[]
clean zero (String.◌∷◌ c s) = String.[]
clean (suc n) (String.◌∷◌ c s) =
    let kept = clean n s in
    let skipped = clean (suc n) s in if is_safe (code c) then String.◌∷◌ c kept else skipped

-- `cleaned or "unknown"`
abbrev pub or_unknown : String → String
or_unknown s = if str_eq s "" then "unknown" else s

-- `_safe_vm_id` of an identifier that is a text or missing.
unfoldable pub safe_vm_id : Option String → String
unfolding clean
safe_vm_id none = "unknown"
safe_vm_id (some s) = or_unknown (clean 64 (or_unknown s))

abbrev pub codes : String → List ℕ
codes String.[] = []
codes (String.◌∷◌ c s) = code c ∷ codes s

-- Every character is safe, there is at least one, and at most 64.
abbrev pub IsSafeId : String → Type 0
IsSafeId s = All (λ c. is_safe c ≡ true) (codes s) × (length (codes s) ≤ 64) × ¬ (s ≡ "")

clean-All : (n : ℕ) (s : String) → All (λ c. is_safe c ≡ true) (codes (clean n s))
unfolding clean
clean-All n String.[] = tt
clean-All zero (String.◌∷◌ c s) = tt
clean-All (suc n) (String.◌∷◌ c s) = elim (Bool-cases (is_safe (code c))) [
  | inl e ↦ rw e (e, clean-All n s)
  | inr e ↦ rw e (clean-All (suc n) s)
]

length-clean : (n : ℕ) (s : String) → length (codes (clean n s)) ≤ n
unfolding clean
length-clean n String.[] = omega arith
length-clean zero (String.◌∷◌ c s) = omega arith
length-clean (suc n) (String.◌∷◌ c s) = elim (Bool-cases (is_safe (code c))) [
  | inl e ↦ rw e (omega (arith, length-clean n s))
  | inr e ↦ rw e (length-clean (suc n) s)
]

clean-safe :
    (n : ℕ) (s : String)
    → All (λ c. is_safe c ≡ true) (codes s)
    → length (codes s) ≤ n
    → clean n s ≡ s
unfolding clean
clean-safe n String.[] safe le = refl
clean-safe zero (String.◌∷◌ c s) safe le = absurd (omega arith)
clean-safe (suc n) (String.◌∷◌ c s) safe le =
    rw (safe.0) (ap (String.◌∷◌ c) (clean-safe n s safe.1 (omega arith)))

unknown-IsSafeId : IsSafeId "unknown"
unfolding is_safe
unknown-IsSafeId = (
  (refl, (refl, (refl, (refl, (refl, (refl, (refl, tt))))))),
  omega arith,
  λ same. let differ : false ≡ true = (eq_iff "unknown" "").1 same in cc differ,
)

or_unknown-IsSafeId :
    (s : String)
    → All (λ c. is_safe c ≡ true) (codes s)
    → length (codes s) ≤ 64
    → IsSafeId (or_unknown s)
or_unknown-IsSafeId s safe le = elim (Bool-cases (str_eq s "")) [
  | inl e ↦ rw e unknown-IsSafeId
  | inr e ↦ rw e (safe, le, λ same. cc (e, (eq_iff s "").1 same))
]

safe_vm_id-Safe : (raw : Option String) → IsSafeId (safe_vm_id raw)
unfolding safe_vm_id
safe_vm_id-Safe none = unknown-IsSafeId
safe_vm_id-Safe (some s) =
    or_unknown-IsSafeId (clean 64 (or_unknown s)) (clean-All 64 (or_unknown s))
      (length-clean 64 (or_unknown s))

or_unknown_self : (s : String) → ¬ (s ≡ "") → or_unknown s ≡ s
or_unknown_self s h = ground (arith, eq_iff s "")

safe_vm_id_again : (s : String) → IsSafeId s → safe_vm_id (some s) ≡ s
unfolding safe_vm_id
safe_vm_id_again s (safe, le, given) =
    rw (or_unknown_self s given, clean-safe 64 s safe le) (or_unknown_self s given)

-- Whatever an agent calls itself, its identifier is made of safe characters, at least one and at
-- most 64, and cleaning such an identifier again changes nothing.
pub safe_vm_id-IsSafeId :
    (raw : Option String)
    → IsSafeId (safe_vm_id raw) × (safe_vm_id (some (safe_vm_id raw)) ≡ safe_vm_id raw)
safe_vm_id-IsSafeId raw =
    (safe_vm_id-Safe raw, safe_vm_id_again (safe_vm_id raw) (safe_vm_id-Safe raw))
