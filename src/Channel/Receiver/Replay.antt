-- ===== src/Channel/Receiver/Replay.antt =====
-- Replay protection and identity binding of `SecureReceiver.open`.
use ganglion_oob.Prelude.{
  ℕ, ◌≤◌, ◌≡◌, refl, sym, ap, ◌∙◌, Bool, false, some, inl, inr, Bool-cases, Option-cases, arith,
  ◌⊎◌,
}
use ganglion_oob.Prelude.Bytes.{Bytes, bytes_eq, bytes_eq_iff}
use ganglion_oob.Channel.Crypto.{Crypto}
use ganglion_oob.Channel.Outcome.{Refusal, Outcome, ok, refused}
use ganglion_oob.Channel.Frame.{Frame}
use ganglion_oob.Channel.Table.{get, put, get-put}
use ganglion_oob.Channel.OrderedSet.{contains}
use ganglion_oob.Channel.Receiver.{
  Decoders, Receiver, Accepted, admit, keys_for, decrypt, regresses, cache_for, register_frame,
  bind_payload, open_admitted, open_frame, Reach, here, next,
}

-- The agent's counter has passed `n`.
abbrev pub Passed : Bytes → ℕ → Receiver → Type 0
Passed a n r = (l : ℕ) × (get a r.last_counter ≡ some l) × (n ≤ l)

Passed-put :
    (a b : Bytes) (n m : ℕ) (r : Receiver)
    → Passed a n r
    → regresses (get b r.last_counter) m ≡ false
    → (l : ℕ) × (get a (put b m r.last_counter) ≡ some l) × (n ≤ l)
unfolding regresses
Passed-put a b n m r (l, e, le) h = elim (Bool-cases (bytes_eq b a)) [
  | inl same ↦
      let b_is_a : b ≡ a = (bytes_eq_iff b a).0 same in
      (
        m,
        rw (get-put b a m r.last_counter, same),
        ground (arith, ap (λ (k : Bytes). get k r.last_counter) b_is_a),
      )
  | inr other ↦ (l, rw (get-put b a m r.last_counter, other) e, le)
]

register_frame-Passed :
    (a : Bytes) (n : ℕ) (f : Frame) (r : Receiver)
    → Passed a n r
    → Passed a n (register_frame f r).0
unfolding register_frame
register_frame-Passed a n f r p = elim (Bool-cases (contains (cache_for f.agent_id r) f.nonce)) [
  | inl seen ↦ rw (seen, register_frame) p
  | inr fresh ↦ elim (Bool-cases (regresses (get f.agent_id r.last_counter) f.counter)) [
    | inl old ↦ rw (fresh, old, register_frame) p
    | inr new ↦ rw (fresh, new, register_frame) (Passed-put a f.agent_id n f.counter r p new)
  ]
]

-- A frame is registered only above the agent's last counter, which it becomes.
register_frame-ok :
    (f : Frame) (r : Receiver)
    → (register_frame f r).1 ≡ ok tt
    → (regresses (get f.agent_id r.last_counter) f.counter ≡ false)
      × Passed f.agent_id f.counter (register_frame f r).0
unfolding register_frame
register_frame-ok f r h = elim (Bool-cases (contains (cache_for f.agent_id r) f.nonce)) [
  | inl seen ↦ let e : Outcome.refused _ ≡ ok tt = rw (seen, register_frame) at h in absurd (cc e)
  | inr fresh ↦ elim (Bool-cases (regresses (get f.agent_id r.last_counter) f.counter)) [
    | inl old ↦
        let e : Outcome.refused _ ≡ ok tt = rw (fresh, old, register_frame) at h in absurd (cc e)
    | inr new ↦ (
      new,
      rw (fresh, new, register_frame)
          (
            f.counter,
            rw (
              get-put f.agent_id f.agent_id f.counter r.last_counter,
              (bytes_eq_iff f.agent_id f.agent_id).1 refl,
            ),
            omega arith,
          ),
    )
  ]
]

pub last_counter-keys_for :
    (c : Crypto) (a : Bytes) (r : Receiver) → (keys_for c a r).0.last_counter ≡ r.last_counter
unfolding keys_for
last_counter-keys_for c a r = elim (Option-cases (get a r.keys)) [
  | inl e ↦ rw (e, keys_for)
  | inr (k, e) ↦ rw (e, keys_for)
]

pub nonce_cache-keys_for :
    (c : Crypto) (a : Bytes) (r : Receiver) → (keys_for c a r).0.nonce_cache ≡ r.nonce_cache
unfolding keys_for
nonce_cache-keys_for c a r = elim (Option-cases (get a r.keys)) [
  | inl e ↦ rw (e, keys_for)
  | inr (k, e) ↦ rw (e, keys_for)
]

keys_for-Passed :
    (c : Crypto) (b a : Bytes) (n : ℕ) (r : Receiver) → Passed a n r → Passed a n (keys_for c b r).0
keys_for-Passed c b a n r (l, e, le) =
    (l, ap (λ (t : _). get a t) (last_counter-keys_for c b r) ∙ e, le)

pub outcome_cases :
    {A : Type 0} (o : Outcome A) → ((e : Refusal) × (o ≡ refused e)) ⊎ ((x : A) × (o ≡ ok x))
outcome_cases (refused e) = inl (e, refl)
outcome_cases (ok x) = inr (x, refl)

module _ (c : Crypto) (d : Decoders) where
  open_admitted-Passed :
      (a : Bytes) (n : ℕ) (f : Frame) (r : Receiver)
      → Passed a n r
      → Passed a n (open_admitted c d f r).0
  unfolding open_admitted
  open_admitted-Passed a n f r p =
      let r' = (keys_for c f.agent_id r).0 in
      let p' : Passed a n r' = keys_for-Passed c f.agent_id a n r p in
      elim (outcome_cases (decrypt c f (keys_for c f.agent_id r).1)) [
        | inl (e, q) ↦ rw (q, open_admitted) p'
        | inr (plaintext, q) ↦ elim (outcome_cases (register_frame f r').1) [
          | inl (e, q2) ↦ rw (q, q2, open_admitted) (register_frame-Passed a n f r' p')
          | inr (t, q2) ↦ rw (q, q2, open_admitted) (register_frame-Passed a n f r' p')
        ]
      ]

  open_frame-Passed :
      (a : Bytes) (n : ℕ) (skew : Bytes → Bool) (bytes : Bytes) (r : Receiver)
      → Passed a n r
      → Passed a n (open_frame c d skew bytes r).0
  unfolding open_frame
  open_frame-Passed a n skew bytes r p = elim (outcome_cases (admit d skew r bytes)) [
    | inl (e, q) ↦ rw (q, open_frame) p
    | inr (f, q) ↦ rw (q, open_frame) (open_admitted-Passed a n f r p)
  ]

  pub Reach-Passed :
      (a : Bytes) (n : ℕ) {r s : Receiver} → Passed a n r → Reach c d r s → Passed a n s
  Reach-Passed a n p here = p
  Reach-Passed a n p (next {s = s} skew bytes reached) =
      open_frame-Passed a n skew bytes s (Reach-Passed a n p reached)

  bind_payload-agent_id :
      (f : Frame) (plaintext : Bytes) (acc : Accepted)
      → bind_payload d f plaintext ≡ ok acc
      → (acc.agent_id ≡ f.agent_id) × (acc.vm_id ≡ f.agent_id)
  unfolding bind_payload
  bind_payload-agent_id f plaintext acc h = ground arith

  -- An accepted frame was registered by the agent that it names.
  pub open_admitted-ok :
      (f : Frame) (r : Receiver) (acc : Accepted)
      → (open_admitted c d f r).1 ≡ ok acc
      → (acc.agent_id ≡ f.agent_id)
        × (acc.vm_id ≡ f.agent_id)
        × (regresses (get f.agent_id r.last_counter) f.counter ≡ false)
        × Passed f.agent_id f.counter (open_admitted c d f r).0
  unfolding open_admitted
  open_admitted-ok f r acc h =
      let r' = (keys_for c f.agent_id r).0 in
      elim (outcome_cases (decrypt c f (keys_for c f.agent_id r).1)) [
        | inl (e, q) ↦
            let no_way : Outcome.refused e ≡ ok acc = rw (q, open_admitted) at h in
            absurd (cc no_way)
        | inr (plaintext, q) ↦ elim (outcome_cases (register_frame f r').1) [
          | inl (e, q2) ↦
              let no_way : Outcome.refused e ≡ ok acc = rw (q, q2, open_admitted) at h in
              absurd (cc no_way)
          | inr (t, q2) ↦
              let bound : bind_payload d f plaintext ≡ ok acc = rw (q, q2, open_admitted) at h in
              let (new, passed) = register_frame-ok f r' q2 in
              (
                (bind_payload-agent_id f plaintext acc bound).0,
                (bind_payload-agent_id f plaintext acc bound).1,
                ap (λ (t : _). regresses (get f.agent_id t) f.counter)
                      (sym (last_counter-keys_for c f.agent_id r))
                    ∙ new,
                rw (q, q2, open_admitted) passed,
              )
        ]
      ]
