-- ===== src/Channel/Frame/RoundTrip.antt =====
-- The wire format is read back as it was written.
use mathlib.Core.List.{append_assoc, append-nil}
use ganglion_oob.Prelude.{
  ℕ, ◌+◌, ◌^◌, ◌<◌, ◌≡◌, refl, sym, Bool, true, [], ◌∷◌, ◌++◌, arith, length, length-append, take,
  take-append_exact, drop-append_exact,
}
use ganglion_oob.Prelude.Bytes.{Bytes, bytes_eq, pack, length-pack, unpack-pack}
use ganglion_oob.Channel.Outcome.{ok}
use ganglion_oob.Channel.Frame.{magic, version, slice, byte_at, unpack, header, frame_bytes, parse}

slice-piece :
    (frame a b c : Bytes) (off n : ℕ)
    → frame ≡ a ++ (b ++ c)
    → off ≡ length a
    → n ≡ length b
    → slice frame off n ≡ b
slice-piece frame a b c off n e eo en = rw (e, eo, en, drop-append_exact, take-append_exact)

module _ (mode : ℕ) (agent_id : Bytes) (counter : ℕ) (timestamp nonce ct : Bytes)
    (ts_size : length timestamp ≡ 8) (nonce_size : length nonce ≡ 12)
    (counter_fits : counter < 256 ^ 8) (ct_fits : length ct < 256 ^ 4) where
  abbrev first : Bytes
  first = magic ++ (version ∷ mode ∷ length agent_id ∷ [])

  abbrev sealed : Bytes
  sealed = frame_bytes (header mode agent_id counter timestamp nonce) ct

  at_agent : slice sealed 7 (length agent_id) ≡ agent_id
  unfolding frame_bytes header
  at_agent =
      slice-piece sealed first agent_id
        (pack 8 counter ++ timestamp ++ nonce ++ pack 4 (length ct) ++ ct) 7 (length agent_id)
        (simp append_assoc) refl refl

  at_counter : slice sealed (7 + length agent_id) 8 ≡ pack 8 counter
  unfolding frame_bytes header
  at_counter =
      slice-piece sealed (first ++ agent_id) (pack 8 counter)
        (timestamp ++ nonce ++ pack 4 (length ct) ++ ct) (7 + length agent_id) 8 (simp append_assoc)
        (omega (arith, length-append {0} first agent_id)) (sym (length-pack 8 counter))

  at_timestamp : slice sealed (7 + length agent_id + 8) 8 ≡ timestamp
  unfolding frame_bytes header
  at_timestamp =
      slice-piece sealed (first ++ agent_id ++ pack 8 counter) timestamp
        (nonce ++ pack 4 (length ct) ++ ct) (7 + length agent_id + 8) 8 (simp append_assoc)
        (omega (
          arith,
          length-append {0} (first ++ agent_id) (pack 8 counter),
          length-append {0} first agent_id,
          length-pack 8 counter,
        ))
        (sym ts_size)

  header_size : 7 + length agent_id + 28 ≡ length (header mode agent_id counter timestamp nonce)
  unfolding header
  header_size = omega (
    arith,
    length-append {0} (first ++ agent_id ++ pack 8 counter ++ timestamp) nonce,
    length-append {0} (first ++ agent_id ++ pack 8 counter) timestamp,
    length-append {0} (first ++ agent_id) (pack 8 counter),
    length-append {0} first agent_id,
    length-pack 8 counter,
    ts_size,
    nonce_size,
  )

  at_nonce : slice sealed (7 + length agent_id + 16) 12 ≡ nonce
  unfolding frame_bytes header
  at_nonce =
      slice-piece sealed (first ++ agent_id ++ pack 8 counter ++ timestamp) nonce
        (pack 4 (length ct) ++ ct) (7 + length agent_id + 16) 12 (simp append_assoc)
        (omega (
          arith,
          length-append {0} (first ++ agent_id ++ pack 8 counter) timestamp,
          length-append {0} (first ++ agent_id) (pack 8 counter),
          length-append {0} first agent_id,
          length-pack 8 counter,
          ts_size,
        ))
        (sym nonce_size)

  at_ct_len : slice sealed (7 + length agent_id + 28) 4 ≡ pack 4 (length ct)
  unfolding frame_bytes
  at_ct_len =
      slice-piece sealed (header mode agent_id counter timestamp nonce) (pack 4 (length ct)) ct _ 4
        (simp append_assoc) header_size (sym (length-pack 4 (length ct)))

  at_ct : slice sealed (7 + length agent_id + 28 + 4) (length ct) ≡ ct
  unfolding frame_bytes
  at_ct =
      slice-piece sealed (header mode agent_id counter timestamp nonce ++ pack 4 (length ct)) ct []
        _ _ (simp (append_assoc, append-nil))
        (omega (
          arith,
          header_size,
          length-append {0} (header mode agent_id counter timestamp nonce) (pack 4 (length ct)),
          length-pack 4 (length ct),
        ))
        refl

  at_aad : take (7 + length agent_id + 28) sealed ≡ header mode agent_id counter timestamp nonce
  unfolding frame_bytes
  at_aad = rw (header_size, append_assoc, take-append_exact)

  starts :
      (bytes_eq (take 4 sealed) magic ≡ true)
      × (byte_at sealed 4 ≡ ok 2)
      × (byte_at sealed 5 ≡ ok mode)
      × (byte_at sealed 6 ≡ ok (length agent_id))
  unfolding frame_bytes header byte_at bytes_eq
  starts = (refl, refl, refl, refl)

  -- Round trip of the wire format: a frame built as the sender builds it is read back field by
  -- field, and the receiver's associated data is exactly the header that the sender authenticated.
  -- The counter fits eight bytes, the ciphertext's length four, a double has eight bytes, the nonce
  -- twelve, and the agent's name is UTF-8.
  pub parse-frame_bytes :
      (decodes : Bytes → Bool)
      → decodes agent_id ≡ true
      → parse decodes (frame_bytes (header mode agent_id counter timestamp nonce) ct)
        ≡ ok (record {
          version = 2;
          mode = mode;
          agent_id = agent_id;
          counter = counter;
          timestamp = timestamp;
          nonce = nonce;
          aad = header mode agent_id counter timestamp nonce;
          ct = ct;
        })
  unfolding parse unpack
  parse-frame_bytes decodes utf8 =
      let (is_magic, at4, at5, at6) = starts in
      simp (
        is_magic,
        at4,
        at5,
        at6,
        at_agent,
        utf8,
        at_counter,
        length-pack,
        unpack-pack 8 counter counter_fits,
        at_timestamp,
        ts_size,
        at_ct_len,
        unpack-pack 4 (length ct) ct_fits,
        at_ct,
        at_nonce,
        at_aad,
      )
