-- ===== src/Channel/Keys.antt =====
-- common/secure_channel.py: `_hkdf` and `derive_agent_keys`.
use Prim.Native.Char.{code}
use ganglion_oob.Prelude.{
  ℕ, zero, suc, ◌+◌, ◌<◌, ◌≤◌, ◌≡◌, String, [], ◌∷◌, ◌++◌, arith, length, length-append, take,
  length-take, ltb, if◌then◌else◌, Bool, true, false,
}
use ganglion_oob.Prelude.Bytes.{Bytes}
use ganglion_oob.Channel.Crypto.{Crypto, HasDigests}

-- The bytes of an ASCII literal, `b"..."`.
abbrev pub ascii : String → Bytes
ascii String.[] = []
ascii (String.◌∷◌ c s) = code c ∷ ascii s

abbrev pub zeros : ℕ → Bytes
zeros zero = []
zeros (suc n) = 0 ∷ zeros n

abbrev pub is_empty : Bytes → Bool
is_empty [] = true
is_empty (x ∷ xs) = false

module _ (c : Crypto) where
  -- The `while` loop; each round adds a digest, so `size` rounds are enough.
  unfoldable pub hkdf_loop : ℕ → ℕ → Bytes → Bytes → Bytes → Bytes → ℕ → Bytes
  hkdf_loop zero size prk info okm t counter = okm
  hkdf_loop (suc fuel) size prk info okm t counter =
      let t' = c.hmac prk (t ++ info ++ counter ∷ []) in
      let rest = hkdf_loop fuel size prk info (okm ++ t') t' (counter + 1) in
      if ltb (length okm) size then rest else okm

  unfoldable pub hkdf : Bytes → Bytes → Bytes → ℕ → Bytes
  hkdf master salt info size =
      let prk = c.hmac (if is_empty salt then zeros 32 else salt) master in
      take size (hkdf_loop (suc size) size prk info [] [] 1)

  -- `(enc_key, mac_key)`; the agent's name is given in UTF-8.
  unfoldable pub derive_agent_keys : Bytes → Bytes → Bytes × Bytes
  derive_agent_keys master agent_id =
      let info = ascii "ganglion-oob|agent|" ++ agent_id in
      (hkdf master (ascii "ganglion-enc") info 32, hkdf master (ascii "ganglion-mac") info 32)

  module _ (digests : HasDigests c) where
    length-hkdf_loop :
        (fuel size : ℕ) (prk info okm t : Bytes) (counter : ℕ)
        → size < length okm + fuel
        → size ≤ length (hkdf_loop fuel size prk info okm t counter)
    unfolding hkdf_loop
    length-hkdf_loop zero size prk info okm t counter h = omega arith
    length-hkdf_loop (suc fuel) size prk info okm t counter h =
        let t' = c.hmac prk (t ++ info ++ counter ∷ []) in
        ground (
          arith,
          length-append {0} okm t',
          digests.width prk (t ++ info ++ counter ∷ []),
          length-hkdf_loop fuel size prk info (okm ++ t') t' (counter + 1),
        )

    length-hkdf : (master salt info : Bytes) (size : ℕ) → length (hkdf master salt info size) ≡ size
    unfolding hkdf
    length-hkdf master salt info size = omega (
      arith,
      length-take {0} size (
          hkdf_loop (suc size) size (c.hmac (if is_empty salt then zeros 32 else salt) master) info
            [] [] 1),
      length-hkdf_loop (suc size) size (c.hmac (if is_empty salt then zeros 32 else salt) master)
          info [] [] 1 (omega arith),
    )

    -- With a digest of 32 bytes the key derivation ends, and both keys of every agent have the 32
    -- bytes that AES-256 and HMAC-SHA256 take.
    pub length-derive_agent_keys :
        (master agent_id : Bytes)
        → (length (derive_agent_keys master agent_id).0 ≡ 32)
          × (length (derive_agent_keys master agent_id).1 ≡ 32)
    unfolding derive_agent_keys
    length-derive_agent_keys master agent_id =
        (length-hkdf master _ _ 32, length-hkdf master _ _ 32)
