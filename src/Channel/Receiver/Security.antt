-- ===== src/Channel/Receiver/Security.antt =====
-- What an accepted frame, and a refused one, mean.
use ganglion_oob.Prelude.{
  ℕ, ◌<◌, ◌≡◌, refl, sym, ap, ◌∙◌, Bool, true, false, Option, some, inl, inr, arith,
}
use ganglion_oob.Prelude.Bytes.{Bytes}
use ganglion_oob.Channel.Crypto.{Crypto}
use ganglion_oob.Channel.Outcome.{Refusal, Outcome, ok, refused}
use ganglion_oob.Channel.Frame.{Frame, parse}
use ganglion_oob.Channel.Table.{get}
use ganglion_oob.Channel.Receiver.{
  Decoders, Receiver, Accepted, allowed, admit, keys_for, decrypt, regresses, open_admitted,
  open_frame, Reach,
}
use ganglion_oob.Channel.Receiver.Replay.{
  Passed, outcome_cases, open_admitted-ok, Reach-Passed, nonce_cache-keys_for,
  last_counter-keys_for,
}

pub admit-ok :
    (d : Decoders) (skew : Bytes → Bool) (r : Receiver) (bytes : Bytes) (f : Frame)
    → admit d skew r bytes ≡ ok f
    → (parse d.decodes bytes ≡ ok f)
      × (f.version ≡ 2)
      × (allowed r.allowed_agents f.agent_id ≡ true)
      × (skew f.timestamp ≡ false)
unfolding admit
admit-ok d skew r bytes f h = elim (outcome_cases (parse d.decodes bytes)) [
  | inl (e, q) ↦ let no_way : Outcome.refused e ≡ ok f = rw (q, admit) at h in absurd (cc no_way)
  | inr (g, q) ↦ ground (arith, q)
]

module _ (c : Crypto) (d : Decoders) (skew : Bytes → Bool) (bytes : Bytes) (r : Receiver) where
  pub open_frame-ok :
      (acc : Accepted)
      → (open_frame c d skew bytes r).1 ≡ ok acc
      → (f : Frame) × (admit d skew r bytes ≡ ok f)
        × ((open_admitted c d f r).1 ≡ ok acc)
        × ((open_frame c d skew bytes r).0 ≡ (open_admitted c d f r).0)
  unfolding open_frame
  open_frame-ok acc h = elim (outcome_cases (admit d skew r bytes)) [
    | inl (e, q) ↦
        let no_way : Outcome.refused e ≡ ok acc = rw (q, open_frame) at h in absurd (cc no_way)
    | inr (f, q) ↦ (f, q, rw (q, open_frame) at h, rw (q, open_frame))
  ]

  -- Identity: an accepted frame is of version 2, its timestamp is within the skew, the agent that it
  -- names is allowed, and the payload's vm_id is that agent's identity, whatever the payload said.
  pub accepted_identity :
      (acc : Accepted)
      → (open_frame c d skew bytes r).1 ≡ ok acc
      → (f : Frame) × (parse d.decodes bytes ≡ ok f)
        × (f.version ≡ 2)
        × (skew f.timestamp ≡ false)
        × (allowed r.allowed_agents f.agent_id ≡ true)
        × (acc.agent_id ≡ f.agent_id)
        × (acc.vm_id ≡ f.agent_id)
  accepted_identity acc h =
      let (f, admitted, opened, _) = open_frame-ok acc h in
      let (parsed, v, known, in_time) = admit-ok d skew r bytes f admitted in
      let (a, b, _, _) = open_admitted-ok c d f r acc opened in (f, parsed, v, in_time, known, a, b)

  -- A frame that is not authentic changes neither the counters nor the nonces, so a forgery cannot
  -- burn an agent's counter; the caller gets the decryption's refusal.
  pub forgery_leaves_replay_state :
      (f : Frame) (e : Refusal)
      → admit d skew r bytes ≡ ok f
      → decrypt c f (keys_for c f.agent_id r).1 ≡ refused e
      → ((open_frame c d skew bytes r).0.last_counter ≡ r.last_counter)
        × ((open_frame c d skew bytes r).0.nonce_cache ≡ r.nonce_cache)
        × ((open_frame c d skew bytes r).1 ≡ refused e)
  unfolding open_frame open_admitted
  forgery_leaves_replay_state f e admitted forged =
      rw (admitted, forged, open_frame, open_admitted)
        (last_counter-keys_for c f.agent_id r, nonce_cache-keys_for c f.agent_id r, refl)

higher :
    (a b : Bytes) (n m : ℕ) (s : Receiver)
    → a ≡ b
    → Passed a n s
    → regresses (get b s.last_counter) m ≡ false
    → n < m
unfolding regresses
higher a b n m s same (l, e, le) h =
    let at_b : get b s.last_counter ≡ some l =
      ap (λ (k : Bytes). get k s.last_counter) (sym same) ∙ e in
    let fresh : regresses (some l) m ≡ false =
      ap (λ (o : Option ℕ). regresses o m) (sym at_b) ∙ h in
    ground arith

-- No replay: when a frame has been accepted, then after any further calls of `open`, however many
-- and however late, every frame that is accepted from the same agent carries a larger counter. So no
-- frame is accepted twice, also when the bounded nonce cache has forgotten it.
pub accepted_counters_increase :
    (c : Crypto) (d : Decoders) (skew skew' : Bytes → Bool) (bytes bytes' : Bytes) (r : Receiver)
    {s : Receiver} (acc acc' : Accepted) (f f' : Frame)
    → (open_frame c d skew bytes r).1 ≡ ok acc
    → Reach c d (open_frame c d skew bytes r).0 s
    → (open_frame c d skew' bytes' s).1 ≡ ok acc'
    → acc.agent_id ≡ acc'.agent_id
    → parse d.decodes bytes ≡ ok f
    → parse d.decodes bytes' ≡ ok f'
    → f.counter < f'.counter
accepted_counters_increase c d skew skew' bytes bytes' r {s} acc acc' f f' first later second same p
      p' =
    let (g, admitted, opened, state) = open_frame-ok c d skew bytes r acc first in
    let (g', admitted', opened', state') = open_frame-ok c d skew' bytes' s acc' second in
    let (a, _, _, passed) = open_admitted-ok c d g r acc opened in
    let (a', _, fresh, _) = open_admitted-ok c d g' s acc' opened' in
    let f_is_g : f ≡ g = cc (p, (admit-ok d skew r bytes g admitted).0) in
    let f'_is_g' : f' ≡ g' = cc (p', (admit-ok d skew' s bytes' g' admitted').0) in
    let reached : Passed g.agent_id g.counter s =
      Reach-Passed c d g.agent_id g.counter (rw (state) passed) later in
    let counters : g.counter < g'.counter =
      higher g.agent_id g'.agent_id g.counter g'.counter s (sym a ∙ same ∙ a') reached fresh in
    rw (f_is_g, f'_is_g') counters
