-- ===== src/Audit/Acceptance.antt =====
-- `verify_file` accepts exactly the chains.
use ganglion_oob.Prelude.{
  ℕ, suc, ◌+◌, ◌≡◌, refl, sym, ap, ◌∙◌, ◌↔◌, ◌⊎◌, inl, inr, String, Option, none, some, List, [],
  ◌∷◌, ◌++◌, arith, length,
}
use ganglion_oob.Prelude.Bytes.{Bytes}
use ganglion_oob.Audit.Types.{
  Number, value, Payload, Entry, Line, blank, malformed, no_object, object, Hashes, genesis,
  resolve_key,
}
use ganglion_oob.Audit.Verify.{
  Report, Reason, Error, intact, raised, key_error, Check, good, fails, raises, payload_of,
  check_entry, scan, verify_file,
}
use ganglion_oob.Audit.Chain.{
  is_number-value, Chain, chain_end, ended, skips, links, check_entry-IsEntry, check_entry-good,
  check_entry-absent,
}

check_cases :
    (c : Check)
    → ((calc : String) × (c ≡ good calc))
      ⊎ (((why : Reason) × (c ≡ fails why)) ⊎ ((e : Error) × (c ≡ raises e)))
check_cases (good calc) = inl (calc, refl)
check_cases (fails why) = inr (inl (why, refl))
check_cases (raises e) = inr (inr (e, refl))

module _ {V : Type 0} where
  -- The lines that are not blank.
  unfoldable pub entries : List (Line V) → ℕ
  entries [] = 0
  entries (blank ∷ ls) = entries ls
  entries (malformed ∷ ls) = suc (entries ls)
  entries (no_object ∷ ls) = suc (entries ls)
  entries (object r ∷ ls) = suc (entries ls)

  entries-append : (ls ks : List (Line V)) → entries (ls ++ ks) ≡ entries ls + entries ks
  unfolding entries
  entries-append [] ks = omega arith
  entries-append (blank ∷ ls) ks = entries-append ls ks
  entries-append (malformed ∷ ls) ks = omega (arith, entries-append ls ks)
  entries-append (no_object ∷ ls) ks = omega (arith, entries-append ls ks)
  entries-append (object r ∷ ls) ks = omega (arith, entries-append ls ks)

  -- One of the five fields that `verify_file` reads by their name is absent.
  pub data IsIncomplete (r : Entry V) : Type 0 where
    no_ts : r.ts ≡ none → IsIncomplete r
    no_actor : r.actor ≡ none → IsIncomplete r
    no_vm_id : r.vm_id ≡ none → IsIncomplete r
    no_verdict : r.verdict ≡ none → IsIncomplete r
    no_reason : r.reason ≡ none → IsIncomplete r

  IsIncomplete-payload_of :
      (h : Hashes V) (prev : String) (r : Entry V) → IsIncomplete r → payload_of h prev r ≡ none
  unfolding payload_of
  IsIncomplete-payload_of h prev r (no_ts e) = ground arith
  IsIncomplete-payload_of h prev r (no_actor e) = ground arith
  IsIncomplete-payload_of h prev r (no_vm_id e) = ground arith
  IsIncomplete-payload_of h prev r (no_verdict e) = ground arith
  IsIncomplete-payload_of h prev r (no_reason e) = ground arith

module _ {V : Type 0} (h : Hashes V) (key : Option Bytes) where
  -- After a chain the loop goes on with what stands behind it.
  pub scan-Chain :
      {prev : String} {seq : ℕ} {ls : List (Line V)} {ps : List (Payload V)} (n : ℕ)
      → Chain h key prev seq ls ps
      → scan h key prev seq n ls ≡ intact (n + length ps)
  unfolding scan
  scan-Chain n ended = ap intact (omega arith)
  scan-Chain n (skips c) = scan-Chain n c
  scan-Chain {prev} {seq} n (links {r = r} {p = p} {ps = ps} e c) =
      rw (check_entry-IsEntry h key prev seq r p e, scan)
        (scan-Chain (n + 1) c ∙ ap intact (omega arith))

  pub scan-intact :
      (prev : String) (seq n m : ℕ) (ls : List (Line V))
      → scan h key prev seq n ls ≡ intact m
      → (ps : List (Payload V)) × Chain h key prev seq ls ps × (m ≡ n + length ps)
  unfolding scan
  scan-intact prev seq n m [] e = ([], ended, ground arith)
  scan-intact prev seq n m (blank ∷ ls) e =
      let (ps, c, size) = scan-intact prev seq n m ls e in (ps, skips c, size)
  scan-intact prev seq n m (malformed ∷ ls) e = absurd (cc e)
  scan-intact prev seq n m (no_object ∷ ls) e = absurd (cc e)
  scan-intact prev seq n m (object r ∷ ls) e = elim (check_cases (check_entry h key prev seq r)) [
    | inl (calc, q) ↦
        let (p, entry, same) = check_entry-good h key prev seq r calc q in
        let rest : scan h key (h.entry_hash p) (seq + 1) (n + 1) ls ≡ intact m =
          rw (q, same, scan) at e in
        let (ps, c, size) = scan-intact (h.entry_hash p) (seq + 1) (n + 1) m ls rest in
        (p ∷ ps, links entry c, omega arith)
    | inr (inl (why, q)) ↦
        let no_way : Report.bad _ _ _ ≡ intact m = rw (q, scan) at e in absurd (cc no_way)
    | inr (inr (x, q)) ↦ let no_way : raised x ≡ intact m = rw (q, scan) at e in absurd (cc no_way)
  ]

  pub length-Chain :
      {prev : String} {seq : ℕ} {ls : List (Line V)} {ps : List (Payload V)}
      → Chain h key prev seq ls ps
      → length ps ≡ entries ls
  unfolding entries
  length-Chain ended = refl
  length-Chain (skips c) = length-Chain c
  length-Chain (links e c) = omega (arith, length-Chain c)

  pub Chain-prefix :
      (ls cut : List (Line V)) {prev : String} {seq : ℕ} {ps : List (Payload V)}
      → Chain h key prev seq (ls ++ cut) ps
      → (qs : List (Payload V)) × Chain h key prev seq ls qs
  Chain-prefix [] cut c = ([], ended)
  Chain-prefix (blank ∷ ls) cut (skips c) = let (qs, d) = Chain-prefix ls cut c in (qs, skips d)
  Chain-prefix (malformed ∷ ls) cut c = elim c [ ]
  Chain-prefix (no_object ∷ ls) cut c = elim c [ ]
  Chain-prefix (object r ∷ ls) cut (links {p = p} e c) =
      let (qs, d) = Chain-prefix ls cut c in (p ∷ qs, links e d)

  same_counts :
      (prev : String) (seq seq' n n' : ℕ) (ls : List (Line V))
      → seq ≡ seq'
      → n ≡ n'
      → scan h key prev seq n ls ≡ scan h key prev seq' n' ls
  same_counts prev seq seq' n n' ls e e' = cc

  -- The loop after a chain.
  pub scan-append :
      {prev : String} {seq : ℕ} {ls : List (Line V)} {ps : List (Payload V)} (n : ℕ)
      (rest : List (Line V))
      → Chain h key prev seq ls ps
      → scan h key prev seq n (ls ++ rest)
        ≡ scan h key (chain_end h prev ps) (seq + length ps) (n + length ps) rest
  unfolding scan
  scan-append {prev} {seq} n rest ended =
      same_counts prev seq (seq + 0) n (n + 0) rest (omega arith) (omega arith)
  scan-append n rest (skips c) = scan-append n rest c
  scan-append {prev} {seq} n rest (links {r = r} {p = p} {ps = ps} e c) =
      rw (check_entry-IsEntry h key prev seq r p e, scan)
        (scan-append (n + 1) rest c
          ∙ same_counts _ (seq + 1 + length ps) _ (n + 1 + length ps) _ rest (omega arith)
              (omega arith))

module _ {V : Type 0} (h : Hashes V) (env key : Option Bytes) where
  -- Acceptance: the report is "chain intact" for exactly the files that are a chain from the genesis
  -- hash and sequence number 0, where every line that is not blank is a complete object with the next
  -- sequence number, the hash of its predecessor, its own content's hash and, when there is a key, the
  -- key's signature; and the number of entries reported is the chain's length.
  pub verify_file_iff :
      (m : ℕ) (ls : List (Line V))
      → (verify_file h env key ls ≡ intact m) ↔ (
          (ps : List (Payload V)) × Chain h (resolve_key key env) genesis 0 ls ps × (m ≡ length ps))
  unfolding verify_file
  verify_file_iff m ls = (
    λ e.
        let (ps, c, size) = scan-intact h (resolve_key key env) genesis 0 0 m ls e in
        (ps, c, omega arith),
    λ x. let (ps, c, size) = x in scan-Chain h (resolve_key key env) 0 c ∙ ap intact (omega arith),
  )

  -- A log that is cut short at the end of a line is still accepted: what stands before the cut is an
  -- intact chain of its lines that are not blank, and the report counts as many entries fewer as there
  -- are such lines behind the cut.
  pub truncation_accepted :
      (m : ℕ) (ls cut : List (Line V))
      → verify_file h env key (ls ++ cut) ≡ intact m
      → (verify_file h env key ls ≡ intact (entries ls)) × (entries ls + entries cut ≡ m)
  truncation_accepted m ls cut e =
      let (ps, c, size) = (verify_file_iff m (ls ++ cut)).0 e in
      let (qs, d) = Chain-prefix h (resolve_key key env) ls cut c in
      (
        (verify_file_iff (entries ls) ls).1 (qs, d, sym (length-Chain h (resolve_key key env) d)),
        omega (arith, entries-append ls cut, length-Chain h (resolve_key key env) c),
      )

  -- An entry that lost its ts, actor, vm_id, verdict or reason is not reported: after an intact
  -- beginning of the file, if its sequence number and previous hash are right, the KeyError leaves
  -- verify_file, whatever else the entry says and whatever follows.
  pub absent_field_escapes :
      (ls rest : List (Line V)) (ps : List (Payload V)) (r : Entry V) (n : Number)
      → Chain h (resolve_key key env) genesis 0 ls ps
      → r.seq ≡ some n
      → value n ≡ length ps
      → r.prev_hash ≡ some (chain_end h genesis ps)
      → IsIncomplete r
      → verify_file h env key (ls ++ object r ∷ rest) ≡ raised key_error
  unfolding verify_file
  absent_field_escapes ls rest ps r n c numbered counted linked lost =
      let end = chain_end h genesis ps in
      scan-append h (resolve_key key env) 0 (object r ∷ rest) c
      ∙ same_counts h (resolve_key key env) end (0 + length ps) (length ps) (0 + length ps)
          (length ps) (object r ∷ rest) (omega arith) (omega arith)
      ∙ unfold scan in
        rw
          (
            check_entry-absent h (resolve_key key env) end (length ps) r
                (is_number-value r.seq n (length ps) numbered counted) linked
                (IsIncomplete-payload_of h end r lost),
            scan,
          )
          refl
