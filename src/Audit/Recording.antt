-- ===== src/Audit/Recording.antt =====
-- What `record` appends, `verify_file` accepts and `_resume` picks up.
use mathlib.Core.Path.{subst}
use ganglion_oob.Prelude.{
  ℕ, suc, ◌+◌, ◌≡◌, refl, sym, ap, ◌∙◌, inl, String, Option, none, some, Bool, true, false, inr,
  Bool-cases, if◌then◌else◌, List, [], ◌∷◌, ◌++◌, arith, length, length-append,
}
use ganglion_oob.Prelude.Bytes.{Bytes}
use ganglion_oob.Audit.Types.{
  value, is_encodable, Payload, Entry, Line, object, Hashes, genesis, resolve_key,
}
use ganglion_oob.Audit.Verify.{intact, payload_of, verify_file}
use ganglion_oob.Audit.Log.{
  File, AuditLog, Decided, can_encode, append_entry, last_line, resume_tail, resume_entry, resume,
  open_log, payload_for, entry_for, record_decision, record_all,
}
use ganglion_oob.Audit.Chain.{IsEntry, Chain, ended, skips, links, chain_end}
use ganglion_oob.Audit.Acceptance.{verify_file_iff}

module _ {V : Type 0} (h : Hashes V) where
  entry_for-IsEntry :
      (key : Option Bytes) (p : Payload V)
      → is_encodable h p ≡ true
      → IsEntry h key p.prev_hash (value p.seq) (entry_for h key p) p
  unfolding payload_of
  entry_for-IsEntry none p ok = record {
    number = refl;
    counted = refl;
    linked = refl;
    fields = refl;
    encoded = ok;
    hashed = refl;
    signed = tt;
  }
  entry_for-IsEntry (some k) p ok = record {
    number = refl;
    counted = refl;
    linked = refl;
    fields = refl;
    encoded = ok;
    hashed = refl;
    signed = inl refl;
  }

  IsEntry-under :
      (key k : Option Bytes) (p : Payload V)
      → k ≡ key
      → is_encodable h p ≡ true
      → IsEntry h key p.prev_hash (value p.seq) (entry_for h k p) p
  IsEntry-under key k p same ok = rw same (entry_for-IsEntry key p ok)

  IsEntry-at :
      (key : Option Bytes) (prev prev' : String) (seq seq' : ℕ) (r : Entry V) (p : Payload V)
      → prev ≡ prev'
      → seq ≡ seq'
      → IsEntry h key prev seq r p
      → IsEntry h key prev' seq' r p
  IsEntry-at key prev prev' seq seq' r p same_prev same_seq e = rw (sym same_prev, sym same_seq) e

  Chain-append :
      (key : Option Bytes) {prev : String} {seq : ℕ} {ls : List (Line V)} {ps : List (Payload V)}
      (r : Entry V) (p : Payload V)
      → Chain h key prev seq ls ps
      → IsEntry h key (chain_end h prev ps) (seq + length ps) r p
      → Chain h key prev seq (ls ++ object r ∷ []) (ps ++ p ∷ [])
  Chain-append key {seq = seq} r p ended e =
      links (IsEntry-at key _ _ _ seq r p refl (omega arith) e) ended
  Chain-append key r p (skips c) e = skips (Chain-append key r p c e)
  Chain-append key r p (links first c) e =
      links first (Chain-append key r p c (IsEntry-at key _ _ _ _ r p refl (omega arith) e))

  chain_end-append :
      (prev : String) (ps : List (Payload V)) (p : Payload V)
      → chain_end h prev (ps ++ p ∷ []) ≡ h.entry_hash p
  chain_end-append prev [] p = refl
  chain_end-append prev (q ∷ ps) p = chain_end-append (h.entry_hash q) ps p

  -- The log's state is the end of the chain in its file.
  pub record IsIntact (key : Option Bytes) (log : AuditLog V) (ps : List (Payload V)) : Type 0 where
    pub chain : Chain h key genesis 0 log.file.lines ps
    pub terminated : log.file.terminated ≡ true
    pub keyed : log.key ≡ key
    pub counted : log.seq ≡ length ps
    pub hashed : log.last_hash ≡ chain_end h genesis ps

  pub can_encode-payload_for :
      (d : Decided V) (log : AuditLog V) → is_encodable h (payload_for h d log) ≡ can_encode h d
  unfolding is_encodable
  can_encode-payload_for d log = refl

  recorded :
      (d : Decided V) (log : AuditLog V)
      → log.file.terminated ≡ true
      → is_encodable h (payload_for h d log) ≡ true
      → record_decision h d log ≡ record log {
        seq = log.seq + 1;
        last_hash = h.entry_hash (payload_for h d log);
        file = record {
          lines = log.file.lines ++ object (entry_for h log.key (payload_for h d log)) ∷ [];
          terminated = true;
        };
      }
  unfolding record_decision append_entry
  recorded d log whole ok = rw (ok, whole) refl

  -- The decisions whose values can be encoded; the others raise and leave the log as it is.
  pub encodable : List (Decided V) → ℕ
  encodable [] = 0
  encodable (d ∷ ds) = if can_encode h d then suc (encodable ds) else encodable ds

  refused :
      (d : Decided V) (log : AuditLog V)
      → is_encodable h (payload_for h d log) ≡ false
      → record_decision h d log ≡ log
  unfolding record_decision
  refused d log q = rw q refl

  record_decision-IsIntact :
      (key : Option Bytes) (d : Decided V) (log : AuditLog V) (ps : List (Payload V))
      → IsIntact key log ps
      → is_encodable h (payload_for h d log) ≡ true
      → IsIntact key (record_decision h d log) (ps ++ payload_for h d log ∷ [])
  record_decision-IsIntact key d log ps i ok =
      let p = payload_for h d log in
      rw (recorded d log i.terminated ok) (record {
        chain = Chain-append key (entry_for h log.key p) p i.chain (
            IsEntry-at key _ _ _ _ (entry_for h log.key p) p i.hashed (omega (arith, i.counted))
              (IsEntry-under key log.key p i.keyed ok));
        terminated = refl;
        keyed = i.keyed;
        counted = omega (arith, i.counted, length-append {0} ps (p ∷ []));
        hashed = sym (chain_end-append genesis ps p);
      })

  record_all-IsIntact :
      (key : Option Bytes) (ds : List (Decided V)) (log : AuditLog V) (ps : List (Payload V))
      → IsIntact key log ps
      → (qs : List (Payload V)) × IsIntact key (record_all h ds log) qs
        × (length qs ≡ length ps + encodable ds)
  unfolding record_all encodable
  record_all-IsIntact key [] log ps i = (ps, i, omega arith)
  record_all-IsIntact key (d ∷ ds) log ps i =
      let p = payload_for h d log in
      elim (Bool-cases (can_encode h d)) [
        | inl ok ↦
            let (qs, j, size) =
              record_all-IsIntact key ds (record_decision h d log) (ps ++ p ∷ [])
                (record_decision-IsIntact key d log ps i (can_encode-payload_for d log ∙ ok)) in
            (qs, j, rw ok (omega (arith, length-append {0} ps (p ∷ []))))
        | inr no_way ↦
            let (qs, j, size) = record_all-IsIntact key ds log ps i in
            (
              qs,
              subst (λ l. IsIntact key (record_all h ds l) qs)
                  (sym (refused d log (can_encode-payload_for d log ∙ no_way))) j,
              rw no_way size,
            )
      ]

  resume_tail-Chain :
      (b : Bool) (key : Option Bytes) {prev : String} {seq : ℕ} {ls : List (Line V)}
      {ps : List (Payload V)} (last : Option (Line V))
      → Chain h key prev seq ls ps
      → resume_tail b last ≡ some (seq, prev)
      → resume_tail b (last_line last ls) ≡ some (seq + length ps, chain_end h prev ps)
  unfolding last_line resume_tail
  resume_tail-Chain b key last (ended {prev = prev} {seq = seq}) e =
      e ∙ ap (λ (n : ℕ). some (n, prev)) (omega arith)
  resume_tail-Chain b key last (skips c) e = resume_tail-Chain b key last c e
  resume_tail-Chain b key last (links {seq = seq} {r = r} {p = p} {ps = ps} entry c) e =
      let here : resume_entry b r ≡ some (seq + 1, h.entry_hash p) =
        rw (entry.number, entry.hashed, entry.counted) refl in
      resume_tail-Chain b key (some (object r)) c here
      ∙ ap (λ (n : ℕ). some (n, chain_end h (h.entry_hash p) ps)) (omega arith)

  pub resume-Chain :
      (b : Bool) (key : Option Bytes) {ls : List (Line V)} {ps : List (Payload V)}
      → Chain h key genesis 0 ls ps
      → resume b ls ≡ some (length ps, chain_end h genesis ps)
  unfolding resume resume_tail
  resume-Chain b key {ps = ps} c =
      resume_tail-Chain b key none c refl
      ∙ ap (λ (n : ℕ). some (n, chain_end h genesis ps)) (omega arith)

  opens :
      (b : Bool) (env key : Option Bytes) (file : File V) (seq : ℕ) (last_hash : String)
      → resume b file.lines ≡ some (seq, last_hash)
      → open_log b env key file
        ≡ some (record { key = resolve_key key env; seq = seq; last_hash = last_hash; file = file })
  unfolding open_log
  opens b env key file seq last_hash e = rw (e, open_log) refl

module _ {V : Type 0} (h : Hashes V) (allow_reset : Bool) (env key : Option Bytes) where
  -- Recording: a log that is opened on an accepted file whose last line ends with a newline, and then
  -- records any decisions, leaves a file that is accepted under the same key, with one more entry for
  -- each decision whose values can be encoded, and from which the log resumes in the state that it had.
  pub record_all-verifies :
      (m : ℕ) (file : File V) (ds : List (Decided V))
      → verify_file h env key file.lines ≡ intact m
      → file.terminated ≡ true
      → (log : AuditLog V) × (open_log allow_reset env key file ≡ some log)
        × (verify_file h env key (record_all h ds log).file.lines ≡ intact (m + encodable h ds))
        × (resume allow_reset (record_all h ds log).file.lines
            ≡ some ((record_all h ds log).seq, (record_all h ds log).last_hash))
  record_all-verifies m file ds e whole =
      let (ps, c, size) = (verify_file_iff h env key m file.lines).0 e in
      let resumed = resume-Chain h allow_reset (resolve_key key env) c in
      let log : AuditLog V = record {
        key = resolve_key key env;
        seq = length ps;
        last_hash = chain_end h genesis ps;
        file = file;
      } in
      let (qs, i, grown) =
        record_all-IsIntact h (resolve_key key env) ds log ps
          (record { chain = c; terminated = whole; keyed = refl; counted = refl; hashed = refl }) in
      (
        log,
        opens h allow_reset env key file (length ps) (chain_end h genesis ps) resumed,
        (verify_file_iff h env key (m + encodable h ds) (record_all h ds log).file.lines).1
            (qs, i.chain, omega arith),
        resume-Chain h allow_reset (resolve_key key env) i.chain ∙ cc (i.counted, i.hashed),
      )
