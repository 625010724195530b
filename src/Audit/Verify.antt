-- ===== src/Audit/Verify.antt =====
-- common/audit_log.py: `verify_file`.
use ganglion_oob.Prelude.{
  ℕ, ◌+◌, ◌==◌, String, Option, none, some, Bool, false, not, List, [], ◌∷◌, if◌then◌else◌, str_eq,
}
use ganglion_oob.Prelude.Bytes.{Bytes}
use ganglion_oob.Audit.Types.{
  Number, value, is_encodable, Payload, Signature, unsigned, text, other, Entry, Line, blank,
  malformed, no_object, object, Hashes, genesis, sign, resolve_key,
}

pub data Reason : Type 0 where
  bad_json sequence_break broken_chain content_tampered bad_signature : Reason

pub data Error : Type 0 where
  key_error attribute_error type_error encode_error : Error

-- The report: how many entries were read, and the first bad sequence number with the reason, or
-- that the chain is intact; or the exception that leaves the function.
pub data Report : Type 0 where
  intact : ℕ → Report
  bad : ℕ → ℕ → Reason → Report
  raised : Error → Report

pub data Check : Type 0 where
  good : String → Check
  fails : Reason → Check
  raises : Error → Check

infixl 5 ◌>>=◌
abbrev ◌>>=◌ : {A B : Type 0} → Option A → (A → Option B) → Option B
none >>= f = none
some a >>= f = f a

-- The arguments of `_entry_hash`, or the KeyError of an absent field.
unfoldable pub payload_of : {V : Type 0} → Hashes V → String → Entry V → Option (Payload V)
payload_of h prev r = do
  seq ← r.seq
  ts ← r.ts
  actor ← r.actor
  vm_id ← r.vm_id
  verdict ← r.verdict
  reason ← r.reason
  some (record {
    seq = seq;
    ts = ts;
    actor = actor;
    vm_id = vm_id;
    verdict = verdict;
    reason = reason;
    «data» = elim r.«data» [ none ↦ h.empty_object | some d ↦ d ];
    prev_hash = prev;
  })

-- The test of the signature, when a key is configured.
unfoldable pub check_signature : {V : Type 0} → Hashes V → Option Bytes → String → Signature → Check
check_signature h none calc s = good calc
check_signature h (some k) calc unsigned =
    if str_eq (sign h (some k) calc) "" then good calc else fails bad_signature
check_signature h (some k) calc (text s) =
    if str_eq (sign h (some k) calc) s then good calc else fails bad_signature
check_signature h (some k) calc other = raises type_error

-- `a != b` for a field that may be absent
unfoldable pub is_number : Option Number → ℕ → Bool
is_number none n = false
is_number (some m) n = value m == n

unfoldable pub is_text : Option String → String → Bool
is_text none t = false
is_text (some s) t = str_eq s t

-- One object, against the hash and the sequence number that the chain wants.
unfoldable pub check_entry : {V : Type 0} → Hashes V → Option Bytes → String → ℕ → Entry V → Check
check_entry h key prev expected r =
    if not (is_number r.seq expected)
    then fails sequence_break
    else if not (is_text r.prev_hash prev)
    then fails broken_chain
    else elim (payload_of h prev r) [
      | none ↦ raises key_error
      | some p ↦
          if not (is_encodable h p)
          then raises encode_error
          else if is_text r.entry_hash (h.entry_hash p)
          then check_signature h key (h.entry_hash p) r.sig
          else fails content_tampered
    ]

-- The loop, with the last good hash, the next sequence number and the count of the lines read.
unfoldable pub scan :
    {V : Type 0} → Hashes V → Option Bytes → String → ℕ → ℕ → List (Line V) → Report
scan h key prev expected n [] = intact n
scan h key prev expected n (blank ∷ ls) = scan h key prev expected n ls
scan h key prev expected n (malformed ∷ ls) = bad (n + 1) expected bad_json
scan h key prev expected n (no_object ∷ ls) = raised attribute_error
scan h key prev expected n (object r ∷ ls) = elim (check_entry h key prev expected r) [
  | raises e ↦ raised e
  | fails why ↦ bad (n + 1) expected why
  | good calc ↦ scan h key calc (expected + 1) (n + 1) ls
]

-- `verify_file(path, key)`; a missing file is an empty one.
unfoldable pub verify_file :
    {V : Type 0} → Hashes V → Option Bytes → Option Bytes → List (Line V) → Report
verify_file h env key ls = scan h (resolve_key key env) genesis 0 0 ls
