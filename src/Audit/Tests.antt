-- ===== src/Audit/Tests.antt =====
-- The log with a constant hash, and its theorems at small files.
use ganglion_oob.Prelude.{
  ℕ, ◌+◌, ◌≡◌, ◌↔◌, inl, refl, Option, none, some, true, false, List, [], ◌∷◌, length,
}
use ganglion_oob.Prelude.Bytes.{Bytes}
use ganglion_oob.Audit.Types.{
  integer, is_encodable, Payload, unsigned, text, Entry, blank, object, Hashes, genesis, sign,
}
use ganglion_oob.Audit.Verify.{
  intact, bad, bad_json, raised, key_error, sequence_break, payload_of, check_signature, is_number,
  is_text, check_entry, scan, verify_file,
}
use ganglion_oob.Audit.Log.{
  File, record_decision, AuditLog, Decided, last_line, resume_tail, resume, open_log, record_all,
}
use ganglion_oob.Audit.Chain.{IsEntry, Chain, ended, skips, links}
use ganglion_oob.Audit.Unterminated.{unterminated_breaks}
use ganglion_oob.Audit.Acceptance.{
  entries, no_reason, verify_file_iff, truncation_accepted, absent_field_escapes,
}
use ganglion_oob.Audit.Recording.{encodable, record_all-verifies}
use ganglion_oob.Audit.Commitment.{last_hash_commits}

abbrev hashes : Hashes ℕ
hashes = record {
  encodes = λ v. true;
  entry_hash = λ p. "h";
  hmac_hex = λ k e. "s";
  empty_object = 0;
}

abbrev first : Payload ℕ
first = record {
  seq = integer 0;
  ts = 1;
  actor = 2;
  vm_id = 3;
  verdict = 4;
  reason = 5;
  «data» = 0;
  prev_hash = genesis;
}

abbrev first_entry : Entry ℕ
first_entry = record {
  seq = some (integer 0);
  ts = some 1;
  actor = some 2;
  vm_id = some 3;
  verdict = some 4;
  reason = some 5;
  «data» = none;
  prev_hash = some genesis;
  entry_hash = some "h";
  sig = text "s";
}

abbrev key : Option Bytes
key = some (1 ∷ [])

first-IsEntry : IsEntry hashes key genesis 0 first_entry first
unfolding payload_of sign is_encodable
first-IsEntry = record {
  number = refl;
  counted = refl;
  linked = refl;
  fields = refl;
  encoded = refl;
  hashed = refl;
  signed = inl refl;
}

first-Chain : Chain hashes key genesis 0 (object first_entry ∷ []) (first ∷ [])
first-Chain = links first-IsEntry ended

spaced-Chain :
    Chain hashes none genesis 0
      (blank ∷ object (record first_entry { sig = unsigned }) ∷ [])
      (first ∷ [])
unfolding payload_of is_encodable
spaced-Chain = skips (
    links
      (record {
        number = refl;
        counted = refl;
        linked = refl;
        fields = refl;
        encoded = refl;
        hashed = refl;
        signed = tt;
      })
      ended)

first-intact : verify_file hashes none key (object first_entry ∷ []) ≡ intact 1
unfolding verify_file scan check_entry check_signature sign payload_of is_number is_text
    is_encodable
first-intact = refl

-- A log whose first entry was deleted is refused.
deleted_first :
    verify_file hashes none key (object (record first_entry { seq = some (integer 1) }) ∷ [])
    ≡ bad 1 0 sequence_break
unfolding verify_file scan check_entry is_number
deleted_first = refl

verify_file_iff_example : (verify_file hashes none key (object first_entry ∷ []) ≡ intact 1) ↔ (
    (ps : List (Payload ℕ)) × Chain hashes key genesis 0 (object first_entry ∷ []) ps
    × (1 ≡ length ps))
verify_file_iff_example = verify_file_iff hashes none key 1 (object first_entry ∷ [])

truncation_accepted_example :
    (verify_file hashes none key [] ≡ intact 0)
    × (entries {V = ℕ} [] + entries (object first_entry ∷ []) ≡ 1)
unfolding entries
truncation_accepted_example =
    truncation_accepted hashes none key 1 [] (object first_entry ∷ []) first-intact

absent_field_escapes_example :
    verify_file hashes none key (object (record first_entry { reason = none }) ∷ [])
    ≡ raised key_error
absent_field_escapes_example =
    absent_field_escapes hashes none key [] [] [] (record first_entry { reason = none }) (integer 0)
      ended refl refl refl (no_reason refl)

abbrev decided : Decided ℕ
decided = record { verdict = 4; vm_id = 3; reason = 5; «data» = none; actor = 2; ts = 9 }

abbrev whole : File ℕ
whole = record { lines = object first_entry ∷ []; terminated = true }

record_all-verifies_example :
    (log : AuditLog ℕ) × (open_log false none key whole ≡ some log)
    × (verify_file hashes none key (record_all hashes (decided ∷ decided ∷ []) log).file.lines
        ≡ intact (1 + encodable hashes (decided ∷ decided ∷ [])))
    × (resume false (record_all hashes (decided ∷ decided ∷ []) log).file.lines
        ≡ some (
          (record_all hashes (decided ∷ decided ∷ []) log).seq,
          (record_all hashes (decided ∷ decided ∷ []) log).last_hash,
        ))
record_all-verifies_example =
    record_all-verifies hashes false none key 1 whole (decided ∷ decided ∷ []) first-intact refl

abbrev half : AuditLog ℕ
half = record {
  key = key;
  seq = 1;
  last_hash = "h";
  file = record { lines = object first_entry ∷ []; terminated = false };
}

unterminated_breaks_example :
    (verify_file hashes none key (record_decision hashes decided half).file.lines
      ≡ bad 1 0 bad_json)
    × (resume false (record_decision hashes decided half).file.lines ≡ none)
unterminated_breaks_example =
    unterminated_breaks hashes none key 1 [] first_entry decided half refl first-intact refl

same_tail :
    resume false (object first_entry ∷ [])
    ≡ resume true (blank ∷ object (record first_entry { sig = unsigned }) ∷ [])
unfolding resume resume_tail last_line
same_tail = refl

last_hash_commits_example : first ∷ [] ≡ first ∷ []
last_hash_commits_example =
    last_hash_commits hashes false true key none first-Chain spaced-Chain same_tail
      (((λ e. refl), tt), tt)
