-- ===== src/Audit/Chain.antt =====
-- What `verify_file` accepts, described without its loop.
use ganglion_oob.Prelude.{
  ℕ, ◌+◌, ◌≡◌, refl, sym, ap, ◌∙◌, ◌↔◌, ◌⊎◌, inl, inr, String, Option, none, some, true, List, [],
  ◌∷◌, arith, Bool-cases, Option-cases, eq_iff,
}
use ganglion_oob.Prelude.Bytes.{Bytes}
use ganglion_oob.Audit.Types.{
  Number, value, is_encodable, Payload, Signature, unsigned, text, other, Entry, Line, blank,
  object, Hashes, sign,
}
use ganglion_oob.Audit.Verify.{
  key_error, Check, good, raises, payload_of, check_signature, check_entry, is_number, is_text,
}

pub is_number-value :
    (o : Option Number) (m : Number) (n : ℕ) → o ≡ some m → value m ≡ n → is_number o n ≡ true
unfolding is_number
is_number-value o m n e same = rw e (ground arith)

is_number-some : (m : Number) (n : ℕ) → is_number (some m) n ≡ true → value m ≡ n
unfolding is_number
is_number-some m n h = ground arith

pub is_text_iff : (o : Option String) (t : String) → (is_text o t ≡ true) ↔ (o ≡ some t)
unfolding is_text
is_text_iff none t = ground arith
is_text_iff (some s) t = ground (arith, eq_iff s t)

module _ {V : Type 0} (h : Hashes V) where
  -- With a key the signature is the key's, and it may be absent only where the key signs nothing.
  abbrev pub IsSigned : Option Bytes → String → Signature → Type 0
  IsSigned none calc s = Unit
  IsSigned (some k) calc s =
      (s ≡ text (sign h (some k) calc)) ⊎ ((s ≡ unsigned) × (sign h (some k) calc ≡ ""))

  -- The object is the entry of this payload, at this place of the chain.
  pub record IsEntry (key : Option Bytes) (prev : String) (seq : ℕ) (r : Entry V) (p : Payload V)
      : Type 0 where
    pub number : r.seq ≡ some p.seq
    pub counted : value p.seq ≡ seq
    pub linked : r.prev_hash ≡ some prev
    pub fields : payload_of h prev r ≡ some p
    pub encoded : is_encodable h p ≡ true
    pub hashed : r.entry_hash ≡ some (h.entry_hash p)
    pub signed : IsSigned key (h.entry_hash p) r.sig

  -- The lines are a chain of these payloads from a hash and a sequence number on.
  pub data Chain (key : Option Bytes) : String → ℕ → List (Line V) → List (Payload V) → Type 0 where
    ended : {prev : String} {seq : ℕ} → Chain key prev seq [] []
    skips :
        {prev : String} {seq : ℕ} {ls : List (Line V)} {ps : List (Payload V)}
        → Chain key prev seq ls ps
        → Chain key prev seq (blank ∷ ls) ps
    links :
        {prev : String} {seq : ℕ} {r : Entry V} {p : Payload V} {ls : List (Line V)}
        {ps : List (Payload V)}
        → IsEntry key prev seq r p
        → Chain key (h.entry_hash p) (seq + 1) ls ps
        → Chain key prev seq (object r ∷ ls) (p ∷ ps)

  -- The hash that the next entry has to name.
  abbrev pub chain_end : String → List (Payload V) → String
  chain_end prev [] = prev
  chain_end prev (p ∷ ps) = chain_end (h.entry_hash p) ps

  check_signature-good :
      (key : Option Bytes) (calc c : String) (s : Signature)
      → check_signature h key calc s ≡ good c
      → IsSigned key calc s × (c ≡ calc)
  unfolding check_signature
  check_signature-good none calc c s e = (tt, cc e)
  check_signature-good (some k) calc c unsigned e = ground (arith, eq_iff (sign h (some k) calc) "")
  check_signature-good (some k) calc c (text s) e = ground (arith, eq_iff (sign h (some k) calc) s)
  check_signature-good (some k) calc c other e = ground arith

  check_signature-IsSigned :
      (key : Option Bytes) (calc : String) (s : Signature)
      → IsSigned key calc s
      → check_signature h key calc s ≡ good calc
  unfolding check_signature
  check_signature-IsSigned none calc s e = refl
  check_signature-IsSigned (some k) calc s (inl e) =
      rw (e, (eq_iff (sign h (some k) calc) (sign h (some k) calc)).1 refl) refl
  check_signature-IsSigned (some k) calc s (inr (e, empty)) =
      rw (e, (eq_iff (sign h (some k) calc) "").1 empty) refl

  pub check_entry-IsEntry :
      (key : Option Bytes) (prev : String) (seq : ℕ) (r : Entry V) (p : Payload V)
      → IsEntry key prev seq r p
      → check_entry h key prev seq r ≡ good (h.entry_hash p)
  unfolding check_entry
  check_entry-IsEntry key prev seq r p e =
      rw
        (
          is_number-value r.seq p.seq seq e.number e.counted,
          (is_text_iff r.prev_hash prev).1 e.linked,
          e.fields,
          e.encoded,
          check_entry,
          (is_text_iff r.entry_hash (h.entry_hash p)).1 e.hashed,
        )
        (check_signature-IsSigned key (h.entry_hash p) r.sig e.signed)

  seq-payload_of :
      (prev : String) (r : Entry V) (p : Payload V)
      → payload_of h prev r ≡ some p
      → r.seq ≡ some p.seq
  unfolding payload_of
  seq-payload_of prev r p e = ground arith

  pub check_entry-good :
      (key : Option Bytes) (prev : String) (seq : ℕ) (r : Entry V) (calc : String)
      → check_entry h key prev seq r ≡ good calc
      → (p : Payload V) × IsEntry key prev seq r p × (calc ≡ h.entry_hash p)
  unfolding check_entry
  check_entry-good key prev seq r calc e = elim (Bool-cases (is_number r.seq seq)) [
    | inr q ↦
        let no_way : Check.fails _ ≡ good calc = rw (q, check_entry) at e in absurd (cc no_way)
    | inl number ↦ elim (Bool-cases (is_text r.prev_hash prev)) [
      | inr q ↦
          let no_way : Check.fails _ ≡ good calc = rw (number, q, check_entry) at e in
          absurd (cc no_way)
      | inl linked ↦ elim (Option-cases (payload_of h prev r)) [
        | inl q ↦
            let no_way : Check.raises _ ≡ good calc = rw (number, linked, q, check_entry) at e in
            absurd (cc no_way)
        | inr (p, fields) ↦ elim (Bool-cases (is_encodable h p)) [
          | inr q ↦
              let no_way : Check.raises _ ≡ good calc =
                rw (number, linked, fields, q, check_entry) at e in
              absurd (cc no_way)
          | inl encoded ↦ elim (Bool-cases (is_text r.entry_hash (h.entry_hash p))) [
            | inr q ↦
                let no_way : Check.fails _ ≡ good calc =
                  rw (number, linked, fields, encoded, q, check_entry) at e in
                absurd (cc no_way)
            | inl hashed ↦
                let signed : check_signature h key (h.entry_hash p) r.sig ≡ good calc =
                  rw (number, linked, fields, encoded, hashed, check_entry) at e in
                let (is_signed, same) =
                  check_signature-good key (h.entry_hash p) calc r.sig signed in
                let at_seq = seq-payload_of prev r p fields in
                (
                  p,
                  record {
                    number = at_seq;
                    counted =
                        is_number-some p.seq seq (sym (ap (λ o. is_number o seq) at_seq) ∙ number);
                    linked = (is_text_iff r.prev_hash prev).0 linked;
                    fields = fields;
                    encoded = encoded;
                    hashed = (is_text_iff r.entry_hash (h.entry_hash p)).0 hashed;
                    signed = is_signed;
                  },
                  same,
                )
          ]
        ]
      ]
    ]
  ]

  pub check_entry-absent :
      (key : Option Bytes) (prev : String) (seq : ℕ) (r : Entry V)
      → is_number r.seq seq ≡ true
      → r.prev_hash ≡ some prev
      → payload_of h prev r ≡ none
      → check_entry h key prev seq r ≡ raises key_error
  unfolding check_entry
  check_entry-absent key prev seq r number linked absent =
      rw (number, (is_text_iff r.prev_hash prev).1 linked, absent, check_entry) refl
