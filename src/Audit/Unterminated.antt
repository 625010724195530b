-- ===== src/Audit/Unterminated.antt =====
-- A file whose last line has lost its newline, which `record` appends to all the same.
use ganglion_oob.Prelude.{
  ℕ, ◌+◌, ◌-◌, ◌≡◌, refl, ap, ◌∙◌, Option, none, some, true, false, List, [], ◌∷◌, ◌++◌, arith,
  length,
}
use ganglion_oob.Prelude.Bytes.{Bytes}
use ganglion_oob.Audit.Types.{
  is_encodable, Entry, Line, blank, malformed, no_object, object, Hashes, resolve_key,
}
use ganglion_oob.Audit.Verify.{bad, bad_json, intact, scan, verify_file}
use ganglion_oob.Audit.Log.{
  File, AuditLog, Decided, can_encode, last_line, resume_tail, resume, payload_for, entry_for,
  glue_last, append_entry, record_decision,
}
use ganglion_oob.Audit.Acceptance.{
  entries, length-Chain, Chain-prefix, scan-append, verify_file_iff, truncation_accepted,
}
use ganglion_oob.Audit.Recording.{can_encode-payload_for}

module _ {V : Type 0} where
  glue_last-object :
      (ls : List (Line V)) (r r' : Entry V)
      → glue_last (ls ++ object r ∷ []) r' ≡ ls ++ malformed ∷ []
  unfolding glue_last
  glue_last-object [] r r' = refl
  glue_last-object (l ∷ []) r r' = refl
  glue_last-object (l ∷ m ∷ ls) r r' = ap (λ k. l ∷ k) (glue_last-object (m ∷ ls) r r')

  last_line-malformed :
      (last : Option (Line V)) (ls : List (Line V))
      → last_line last (ls ++ malformed ∷ []) ≡ some malformed
  unfolding last_line
  last_line-malformed last [] = refl
  last_line-malformed last (blank ∷ ls) = last_line-malformed last ls
  last_line-malformed last (malformed ∷ ls) = last_line-malformed (some malformed) ls
  last_line-malformed last (no_object ∷ ls) = last_line-malformed (some no_object) ls
  last_line-malformed last (object r ∷ ls) = last_line-malformed (some (object r)) ls

module _ {V : Type 0} (h : Hashes V) (env key : Option Bytes) where
  -- After an intact beginning a line that is no JSON is reported.
  scan-malformed :
      (m : ℕ) (ls : List (Line V)) (r : Entry V)
      → verify_file h env key (ls ++ object r ∷ []) ≡ intact m
      → verify_file h env key (ls ++ malformed ∷ []) ≡ bad m (m - 1) bad_json
  unfolding verify_file scan entries
  scan-malformed m ls r e =
      let k = resolve_key key env in
      let (ps, c, size) = (verify_file_iff h env key m (ls ++ object r ∷ [])).0 e in
      let (qs, d) = Chain-prefix h k ls (object r ∷ []) c in
      let (_, total) = truncation_accepted h env key m ls (object r ∷ []) e in
      let counted = length-Chain h k d in
      let read : 0 + length qs + 1 ≡ m = omega arith in
      let wanted : 0 + length qs ≡ m - 1 = omega arith in
      scan-append h k 0 (malformed ∷ []) d
      ∙ ap (λ n. bad n (0 + length qs) bad_json) read
      ∙ ap (λ n. bad m n bad_json) wanted

  -- An accepted file whose last line, an entry, does not end with a newline is broken by the next
  -- decision that is recorded on it, if its values can be encoded: that decision's text is glued to the
  -- last entry, verify_file reports malformed JSON at the entry that was the last good one, and a log
  -- refuses to resume from the file.
  pub unterminated_breaks :
      (m : ℕ) (ls : List (Line V)) (r : Entry V) (d : Decided V) (log : AuditLog V)
      → log.file ≡ record { lines = ls ++ object r ∷ []; terminated = false }
      → verify_file h env key log.file.lines ≡ intact m
      → can_encode h d ≡ true
      → (verify_file h env key (record_decision h d log).file.lines ≡ bad m (m - 1) bad_json)
        × (resume false (record_decision h d log).file.lines ≡ none)
  unfolding record_decision append_entry resume resume_tail
  unterminated_breaks m ls r d log shape e ok =
      let ok' : is_encodable h (payload_for h d log) ≡ true = can_encode-payload_for h d log ∙ ok in
      let open_ended : log.file.terminated ≡ false = ap (λ (f : File V). f.terminated) shape in
      let lines : log.file.lines ≡ ls ++ object r ∷ [] = ap (λ (f : File V). f.lines) shape in
      let written : (record_decision h d log).file.lines ≡ ls ++ malformed ∷ [] =
        rw (ok', open_ended)
          (ap (λ l. glue_last l (entry_for h log.key (payload_for h d log))) lines
            ∙ glue_last-object ls r (entry_for h log.key (payload_for h d log))) in
      (
        ap (verify_file h env key) written ∙ scan-malformed m ls r (rw (lines) at e),
        ap (resume false) written ∙ ap (resume_tail false) (last_line-malformed none ls),
      )
