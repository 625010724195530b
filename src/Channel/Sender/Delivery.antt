-- ===== src/Channel/Sender/Delivery.antt =====
-- A frame that the sender seals, the receiver opens.
use ganglion_oob.Prelude.{
  ◌+◌, ◌<◌, ◌^◌, ◌≡◌, refl, ap, ◌∙◌, Bool, true, false, some, arith, length, Option-cases, inl, inr,
  ◌⊎◌,
}
use ganglion_oob.Prelude.Bytes.{Bytes, IsBytes, bytes_eq_refl}
use ganglion_oob.Channel.Crypto.{Crypto, HasDigests}
use ganglion_oob.Channel.Aead.{hmac_seal, hmac_open, hmac_open-seal}
use ganglion_oob.Channel.OrderedSet.{contains}
use ganglion_oob.Channel.Outcome.{ok, refused, attribute_error}
use ganglion_oob.Channel.Frame.{Frame, header, frame_bytes}
use ganglion_oob.Channel.Frame.RoundTrip.{parse-frame_bytes}
use ganglion_oob.Channel.Table.{get, put, get-put}
use ganglion_oob.Channel.Receiver.{
  Decoders, Receiver, cache_for, allowed, admit, keys_for, decrypt, regresses, register_frame,
  open_admitted, open_frame, bind_payload, no_object, object, unclaimed, claims,
}
use ganglion_oob.Channel.Sender.{Sender, encrypt, seal}

-- `AESGCM.decrypt` undoes `AESGCM.encrypt` under the same key, nonce and associated data.
pub record HasGcm (c : Crypto) : Type 0 where
  pub inverse :
      (key nonce message aad : Bytes)
      → c.gcm_decrypt key nonce (c.gcm_encrypt key nonce message aad) aad ≡ some message

-- The mode that `__init__` picks: AES-GCM only where the package is installed.
abbrev pub HasMode : Crypto → Sender → Type 0
HasMode c s = ((s.mode ≡ 1) × (c.have_aesgcm ≡ true)) ⊎ (s.mode ≡ 2)

module _ (c : Crypto) where
  encrypt_gcm :
      (s : Sender) (nonce plaintext aad : Bytes)
      → s.mode ≡ 1
      → encrypt c s nonce plaintext aad ≡ c.gcm_encrypt s.enc_key nonce plaintext aad
  unfolding encrypt
  encrypt_gcm s nonce plaintext aad m = ground arith

  encrypt_hmac :
      (s : Sender) (nonce plaintext aad : Bytes)
      → s.mode ≡ 2
      → encrypt c s nonce plaintext aad ≡ hmac_seal c s.enc_key s.mac_key nonce plaintext aad
  unfolding encrypt
  encrypt_hmac s nonce plaintext aad m = ground arith

  decrypt_gcm :
      (f : Frame) (enc_key mac_key plaintext : Bytes)
      → f.mode ≡ 1
      → c.have_aesgcm ≡ true
      → c.gcm_decrypt enc_key f.nonce f.ct f.aad ≡ some plaintext
      → decrypt c f (enc_key, mac_key) ≡ ok plaintext
  unfolding decrypt
  decrypt_gcm f enc_key mac_key plaintext m have e = rw (m, have, e) refl

  decrypt_hmac :
      (f : Frame) (enc_key mac_key plaintext : Bytes)
      → f.mode ≡ 2
      → hmac_open c enc_key mac_key f.nonce f.ct f.aad ≡ some plaintext
      → decrypt c f (enc_key, mac_key) ≡ ok plaintext
  unfolding decrypt
  decrypt_hmac f enc_key mac_key plaintext m e = rw (m, e) refl

  registers_fresh :
      (f : Frame) (a nonce : Bytes) (r : Receiver)
      → f.agent_id ≡ a
      → f.nonce ≡ nonce
      → contains (cache_for a r) nonce ≡ false
      → regresses (get a r.last_counter) f.counter ≡ false
      → (register_frame f (keys_for c a r).0).1 ≡ ok tt
  unfolding register_frame keys_for
  registers_fresh f a nonce r at_a at_nonce new_nonce new_counter =
      elim (Option-cases (get a r.keys)) [
        | inl e ↦ rw (e, keys_for, at_a, at_nonce, new_nonce, new_counter, register_frame) refl
        | inr (k, e) ↦ rw (e, keys_for, at_a, at_nonce, new_nonce, new_counter, register_frame) refl
      ]

  registers_counter :
      (f : Frame) (a nonce : Bytes) (r : Receiver)
      → f.agent_id ≡ a
      → f.nonce ≡ nonce
      → contains (cache_for a r) nonce ≡ false
      → regresses (get a r.last_counter) f.counter ≡ false
      → get a (register_frame f (keys_for c a r).0).0.last_counter ≡ some f.counter
  unfolding register_frame keys_for
  registers_counter f a nonce r at_a at_nonce new_nonce new_counter =
      let found : get a (put a f.counter r.last_counter) ≡ some f.counter =
        rw (get-put a a f.counter r.last_counter, bytes_eq_refl) refl in
      elim (Option-cases (get a r.keys)) [
        | inl e ↦ rw (e, keys_for, at_a, at_nonce, new_nonce, new_counter, register_frame) found
        | inr (k, e) ↦
            rw (e, keys_for, at_a, at_nonce, new_nonce, new_counter, register_frame) found
      ]

module _ (c : Crypto) (digests : HasDigests c) (gcm : HasGcm c) where
  decrypt-encrypt :
      (s : Sender) (f : Frame) (plaintext : Bytes)
      → IsBytes plaintext
      → HasMode c s
      → f.mode ≡ s.mode
      → f.ct ≡ encrypt c s f.nonce plaintext f.aad
      → decrypt c f (s.enc_key, s.mac_key) ≡ ok plaintext
  decrypt-encrypt s f plaintext bytes (inl (m, have)) same ct =
      decrypt_gcm c f s.enc_key s.mac_key plaintext (same ∙ m) have (
        ap (λ (t : Bytes). c.gcm_decrypt s.enc_key f.nonce t f.aad)
          (ct ∙ encrypt_gcm c s f.nonce plaintext f.aad m)
        ∙ gcm.inverse s.enc_key f.nonce plaintext f.aad)
  decrypt-encrypt s f plaintext bytes (inr m) same ct =
      decrypt_hmac c f s.enc_key s.mac_key plaintext (same ∙ m) (
        ap (λ (t : Bytes). hmac_open c s.enc_key s.mac_key f.nonce t f.aad)
          (ct ∙ encrypt_hmac c s f.nonce plaintext f.aad m)
        ∙ hmac_open-seal c digests s.enc_key s.mac_key f.nonce plaintext f.aad bytes)

  -- The conditions under which the receiver has nothing against the sender's next frame.
  pub record IsWelcome (d : Decoders) (skew : Bytes → Bool) (s : Sender)
      (nonce timestamp plaintext : Bytes) (r : Receiver) : Type 0 where
    pub name_fits : length s.agent_id < 256
    pub name_decodes : d.decodes s.agent_id ≡ true
    pub is_allowed : allowed r.allowed_agents s.agent_id ≡ true
    pub in_time : skew timestamp ≡ false
    pub has_mode : HasMode c s
    pub same_keys : (keys_for c s.agent_id r).1 ≡ (s.enc_key, s.mac_key)
    pub counter_fits : s.counter + 1 < 2 ^ 64
    pub timestamp_size : length timestamp ≡ 8
    pub nonce_size : length nonce ≡ 12
    pub new_nonce : contains (cache_for s.agent_id r) nonce ≡ false
    pub new_counter : regresses (get s.agent_id r.last_counter) (s.counter + 1) ≡ false
    pub bytes : IsBytes plaintext

  -- The payload is an object that claims no other agent.
  abbrev pub IsBound : Decoders → Sender → Bytes → Type 0
  IsBound d s plaintext =
      (d.loads plaintext ≡ object unclaimed) ⊎ (d.loads plaintext ≡ object (claims s.agent_id))

  module _ (d : Decoders) (skew : Bytes → Bool) (s : Sender) (nonce timestamp plaintext : Bytes)
      (r : Receiver) (w : IsWelcome d skew s nonce timestamp plaintext r) where
    abbrev bumped : Sender
    bumped = record s { counter = s.counter + 1 }

    abbrev aad_of : Bytes
    aad_of = header s.mode s.agent_id (s.counter + 1) timestamp nonce

    abbrev ct_of : Bytes
    ct_of = encrypt c bumped nonce plaintext aad_of

    abbrev frame_of : Frame
    frame_of = record {
      version = 2;
      mode = s.mode;
      agent_id = s.agent_id;
      counter = s.counter + 1;
      timestamp = timestamp;
      nonce = nonce;
      aad = aad_of;
      ct = ct_of;
    }

    seal_writes : (seal c plaintext nonce timestamp s).1 ≡ some (frame_bytes aad_of ct_of)
    unfolding seal
    seal_writes = ground (arith, w.name_fits)

    admitted : length ct_of < 256 ^ 4 → admit d skew r (frame_bytes aad_of ct_of) ≡ ok frame_of
    unfolding admit
    admitted fits =
        let parsed =
          parse-frame_bytes s.mode s.agent_id (s.counter + 1) timestamp nonce ct_of w.timestamp_size
            w.nonce_size w.counter_fits fits d.decodes w.name_decodes in
        rw (parsed, w.is_allowed, w.in_time, admit) refl

    registers : (register_frame frame_of (keys_for c s.agent_id r).0).1 ≡ ok tt
    registers = registers_fresh c frame_of s.agent_id nonce r refl refl w.new_nonce w.new_counter

    opens : decrypt c frame_of (keys_for c s.agent_id r).1 ≡ ok plaintext
    opens =
        ap (λ (k : _). decrypt c frame_of k) w.same_keys
        ∙ decrypt-encrypt bumped frame_of plaintext w.bytes w.has_mode refl refl

    bound :
        IsBound d s plaintext
        → bind_payload d frame_of plaintext
          ≡ ok (record { agent_id = s.agent_id; vm_id = s.agent_id; plaintext = plaintext })
    unfolding bind_payload
    bound claim = elim claim [
      | inl e ↦ rw (e, bind_payload) refl
      | inr e ↦ rw (e, bind_payload, bytes_eq_refl) refl
    ]

    -- Delivery: the frame that an agent seals, the receiver accepts, in either mode, as that agent's,
    -- with the plaintext that was sealed, if the decryption undoes the encryption, digests have 32
    -- bytes, the ciphertext's length fits its field, and the receiver has nothing against the frame:
    -- the agent is allowed and has the same keys, its name fits and is UTF-8, the time is within the
    -- skew, the nonce and the counter are new; and if the payload is an object that claims no other agent.
    pub open_frame-seal :
        IsBound d s plaintext
        → length ct_of < 256 ^ 4
        → (frame : Bytes) × ((seal c plaintext nonce timestamp s).1 ≡ some frame)
          × ((open_frame c d skew frame r).1
              ≡ ok (record { agent_id = s.agent_id; vm_id = s.agent_id; plaintext = plaintext }))
    unfolding open_frame open_admitted
    open_frame-seal claim fits = (
      frame_bytes aad_of ct_of,
      seal_writes,
      rw (admitted fits, opens, registers, bound claim, open_frame, open_admitted) refl,
    )

    -- A payload that is JSON but no object: the frame that an agent seals around it, under the other
    -- conditions of delivery, makes the receiver's open fail with an AttributeError instead of the
    -- AuthError that it documents, and the frame's counter is spent: it is the agent's last counter.
    pub open_frame-no_object :
        d.loads plaintext ≡ no_object
        → length ct_of < 256 ^ 4
        → (frame : Bytes) × ((seal c plaintext nonce timestamp s).1 ≡ some frame)
          × ((open_frame c d skew frame r).1 ≡ refused attribute_error)
          × (get s.agent_id (open_frame c d skew frame r).0.last_counter ≡ some (s.counter + 1))
    unfolding open_frame open_admitted bind_payload
    open_frame-no_object shape fits = (
      frame_bytes aad_of ct_of,
      seal_writes,
      rw (admitted fits, opens, registers, shape, open_frame, open_admitted, bind_payload) refl,
      rw (admitted fits, opens, registers, open_frame, open_admitted)
          (registers_counter c frame_of s.agent_id nonce r refl refl w.new_nonce w.new_counter),
    )
