-- ===== src/Audit/Log.antt =====
-- common/audit_log.py: `DecisionAuditLog`, with the lines of its file.
use ganglion_oob.Prelude.{
  ℕ, ◌+◌, String, Option, none, some, Bool, ◌&&◌, true, List, [], ◌∷◌, ◌++◌, if◌then◌else◌,
}
use ganglion_oob.Prelude.Bytes.{Bytes}
use ganglion_oob.Audit.Types.{
  integer, value, is_encodable, Payload, text, Entry, Line, blank, malformed, no_object, object,
  Hashes, genesis, sign, resolve_key,
}

-- A file is its lines, and whether the last one ends with a newline; an empty file counts as such.
pub record File (V : Type 0) : Type 0 where
  pub lines : List (Line V)
  pub terminated : Bool

pub record AuditLog (V : Type 0) : Type 0 where
  pub key : Option Bytes
  pub seq : ℕ
  pub last_hash : String
  pub file : File V

-- The last line that is not blank.
unfoldable pub last_line : {V : Type 0} → Option (Line V) → List (Line V) → Option (Line V)
last_line last [] = last
last_line last (blank ∷ ls) = last_line last ls
last_line last (malformed ∷ ls) = last_line (some malformed) ls
last_line last (no_object ∷ ls) = last_line (some no_object) ls
last_line last (object r ∷ ls) = last_line (some (object r)) ls

-- What a tail that cannot be read gives: a new chain when resetting is allowed, else an
-- AuditIntegrityError.
abbrev pub unreadable_tail : Bool → Option (ℕ × String)
unreadable_tail allow_reset = if allow_reset then some (0, genesis) else none

abbrev pub resume_entry : {V : Type 0} → Bool → Entry V → Option (ℕ × String)
resume_entry allow_reset r = elim r.seq [
  | none ↦ unreadable_tail allow_reset
  | some n ↦ elim r.entry_hash [
    | none ↦ unreadable_tail allow_reset
    | some e ↦ some (value n + 1, e)
  ]
]

unfoldable pub resume_tail : {V : Type 0} → Bool → Option (Line V) → Option (ℕ × String)
resume_tail allow_reset none = some (0, genesis)
resume_tail allow_reset (some blank) = unreadable_tail allow_reset
resume_tail allow_reset (some malformed) = unreadable_tail allow_reset
resume_tail allow_reset (some no_object) = unreadable_tail allow_reset
resume_tail allow_reset (some (object r)) = resume_entry allow_reset r

-- `_resume`; `none` is the AuditIntegrityError. A tail whose seq is a number written as a text, or
-- whose hash is no text, is taken for unreadable here, where the source goes on with what `int` gives
-- and with that hash.
unfoldable pub resume : {V : Type 0} → Bool → List (Line V) → Option (ℕ × String)
resume allow_reset ls = resume_tail allow_reset (last_line none ls)

-- `DecisionAuditLog(path, key)` on this file
unfoldable pub open_log :
    {V : Type 0} → Bool → Option Bytes → Option Bytes → File V → Option (AuditLog V)
open_log allow_reset env key file = elim (resume allow_reset file.lines) [
  | none ↦ none
  | some (seq, last_hash) ↦
      some (record { key = resolve_key key env; seq = seq; last_hash = last_hash; file = file })
]

-- The decision that `record` is given, with the clock's time; no data is an empty object.
pub record Decided (V : Type 0) : Type 0 where
  pub verdict : V
  pub vm_id : V
  pub reason : V
  pub «data» : Option V
  pub actor : V
  pub ts : V

-- The decision's own values can be encoded.
abbrev pub can_encode : {V : Type 0} → Hashes V → Decided V → Bool
can_encode h d =
    h.encodes d.ts
    && h.encodes d.actor
    && h.encodes d.vm_id
    && h.encodes d.verdict
    && h.encodes d.reason
    && h.encodes (elim d.«data» [ none ↦ h.empty_object | some v ↦ v ])

abbrev pub payload_for : {V : Type 0} → Hashes V → Decided V → AuditLog V → Payload V
payload_for h d log = record {
  seq = integer log.seq;
  ts = d.ts;
  actor = d.actor;
  vm_id = d.vm_id;
  verdict = d.verdict;
  reason = d.reason;
  «data» = elim d.«data» [ none ↦ h.empty_object | some v ↦ v ];
  prev_hash = log.last_hash;
}

abbrev pub entry_for : {V : Type 0} → Hashes V → Option Bytes → Payload V → Entry V
entry_for h key p = record {
  seq = some p.seq;
  ts = some p.ts;
  actor = some p.actor;
  vm_id = some p.vm_id;
  verdict = some p.verdict;
  reason = some p.reason;
  «data» = some p.«data»;
  prev_hash = some p.prev_hash;
  entry_hash = some (h.entry_hash p);
  sig = text (sign h key (h.entry_hash p));
}

-- A line without its newline, and the text of an object behind it.
abbrev pub glue : {V : Type 0} → Line V → Entry V → Line V
glue blank r = object r
glue malformed r = malformed
glue no_object r = malformed
glue (object _) r = malformed

unfoldable pub glue_last : {V : Type 0} → List (Line V) → Entry V → List (Line V)
glue_last [] r = object r ∷ []
glue_last (l ∷ []) r = glue l r ∷ []
glue_last (l ∷ m ∷ ls) r = l ∷ glue_last (m ∷ ls) r

-- The text of an object and a newline, at the end of the file.
unfoldable pub append_entry : {V : Type 0} → Entry V → File V → File V
unfolding glue_last
append_entry r file = record {
  lines = if file.terminated then file.lines ++ object r ∷ [] else glue_last file.lines r;
  terminated = true;
}

-- `record`; a value that cannot be encoded raises before anything has changed.
unfoldable pub record_decision : {V : Type 0} → Hashes V → Decided V → AuditLog V → AuditLog V
unfolding append_entry
record_decision h d log =
    let p = payload_for h d log in
    if is_encodable h p
    then record log {
      seq = log.seq + 1;
      last_hash = h.entry_hash p;
      file = append_entry (entry_for h log.key p) log.file;
    }
    else log

-- Any number of decisions.
unfoldable pub record_all : {V : Type 0} → Hashes V → List (Decided V) → AuditLog V → AuditLog V
record_all h [] log = log
record_all h (d ∷ ds) log = record_all h ds (record_decision h d log)
