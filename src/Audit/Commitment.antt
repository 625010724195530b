-- ===== src/Audit/Commitment.antt =====
-- What the last hash of an accepted log says about its history.
use ganglion_oob.Prelude.{
  ℕ, ◌≡◌, refl, sym, ap, ◌∙◌, String, Option, some, Bool, List, [], ◌∷◌, arith, length, All,
}
use ganglion_oob.Prelude.Bytes.{Bytes}
use ganglion_oob.Audit.Types.{Payload, Entry, Line, Hashes, genesis}
use ganglion_oob.Audit.Verify.{payload_of}
use ganglion_oob.Audit.Log.{resume}
use ganglion_oob.Audit.Chain.{Chain, ended, skips, links, chain_end}
use ganglion_oob.Audit.Recording.{resume-Chain}

module _ {V : Type 0} (h : Hashes V) where
  -- No two different payloads of the two lists have the same hash.
  abbrev pub NoCollision : List (Payload V) → List (Payload V) → Type 0
  NoCollision ps qs =
      All (λ (p : Payload V). All (λ (q : Payload V). h.entry_hash p ≡ h.entry_hash q → p ≡ q) qs)
        ps

  -- Each payload names the hash before it.
  abbrev IsLinked : String → List (Payload V) → Type 0
  IsLinked prev [] = Unit
  IsLinked prev (p ∷ ps) = (p.prev_hash ≡ prev) × IsLinked (h.entry_hash p) ps

  prev_hash-payload_of :
      (prev : String) (r : Entry V) (p : Payload V)
      → payload_of h prev r ≡ some p
      → p.prev_hash ≡ prev
  unfolding payload_of
  prev_hash-payload_of prev r p e = ground arith

  Chain-IsLinked :
      (key : Option Bytes) {prev : String} {seq : ℕ} {ls : List (Line V)} {ps : List (Payload V)}
      → Chain h key prev seq ls ps
      → IsLinked prev ps
  Chain-IsLinked key ended = tt
  Chain-IsLinked key (skips c) = Chain-IsLinked key c
  Chain-IsLinked key {prev = prev} (links {r = r} {p = p} e c) =
      (prev_hash-payload_of prev r p e.fields, Chain-IsLinked key c)

  NoCollision-tails :
      (p q : Payload V) (ps qs : List (Payload V))
      → NoCollision (p ∷ ps) (q ∷ qs)
      → NoCollision ps qs
  NoCollision-tails p q [] qs n = tt
  NoCollision-tails p q (p' ∷ ps) qs n = (n.1.0.1, NoCollision-tails p q ps qs (n.0, n.1.1))

  same_history :
      (prev prev' : String) (ps qs : List (Payload V))
      → IsLinked prev ps
      → IsLinked prev' qs
      → NoCollision ps qs
      → length ps ≡ length qs
      → chain_end h prev ps ≡ chain_end h prev' qs
      → (prev ≡ prev') × (ps ≡ qs)
  same_history prev prev' [] [] l l' n size e = (e, refl)
  same_history prev prev' [] (q ∷ qs) l l' n size e = absurd (omega arith)
  same_history prev prev' (p ∷ ps) [] l l' n size e = absurd (omega arith)
  same_history prev prev' (p ∷ ps) (q ∷ qs) l l' n size e =
      let (hashes, rest) =
        same_history (h.entry_hash p) (h.entry_hash q) ps qs l.1 l'.1
          (NoCollision-tails p q ps qs n) (omega arith) e in
      let same : p ≡ q = n.0.0 hashes in
      (sym l.0 ∙ ap (λ (x : Payload V). x.prev_hash) same ∙ l'.0, cc (same, rest))

  -- Tamper evidence: two files that `verify_file` accepts, and from which a log resumes with the same
  -- sequence number and last hash, hold the same decisions in the same order, unless two different
  -- ones of them have the same hash. So a history cannot be altered, reordered, thinned out or
  -- extended without the last hash showing it.
  pub last_hash_commits :
      (b b' : Bool) (key key' : Option Bytes) {ls ls' : List (Line V)} {ps ps' : List (Payload V)}
      → Chain h key genesis 0 ls ps
      → Chain h key' genesis 0 ls' ps'
      → resume b ls ≡ resume b' ls'
      → NoCollision ps ps'
      → ps ≡ ps'
  last_hash_commits b b' key key' {ps = ps} {ps' = ps'} c c' same n =
      let states : some (length ps, chain_end h genesis ps)
          ≡ some (length ps', chain_end h genesis ps') =
        sym (resume-Chain h b key c) ∙ same ∙ resume-Chain h b' key' c' in
      let sizes : length ps ≡ length ps' = cc states in
      let ends : chain_end h genesis ps ≡ chain_end h genesis ps' = cc states in
      (same_history genesis genesis ps ps' (Chain-IsLinked key c) (Chain-IsLinked key' c') n sizes
        ends).1
