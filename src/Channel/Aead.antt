-- ===== src/Channel/Aead.antt =====
-- common/secure_channel.py: the HMAC encrypt-then-MAC construction, `_keystream`, `_hmac_seal` and
-- `_hmac_open`.
use Prim.Native.Nat.{bit_xor}
use ganglion_oob.Prelude.{
  ℕ, zero, suc, ◌+◌, ◌-◌, ◌<◌, ◌≤◌, ◌≡◌, refl, sym, ap, ◌∙◌, Bool, true, false, ◌&&◌, [], ◌∷◌, ◌++◌,
  Option, none, some, arith, length, length-append, take, drop, length-take, take-append_exact,
  drop-append_exact, take-append-drop, ltb, ◌==◌, if◌then◌else◌, Bool-cases, inl, inr,
}
use ganglion_oob.Prelude.Bytes.{
  Bytes, IsBytes, IsBytes-append, bytes_eq, bytes_eq_refl, bytes_eq-eq, pack,
}
use ganglion_oob.Channel.Crypto.{Crypto, HasDigests}

-- `bytes(p ^ k for p, k in zip(plaintext, ks))`
unfoldable pub xor_bytes : Bytes → Bytes → Bytes
xor_bytes [] ks = []
xor_bytes (p ∷ ps) [] = []
xor_bytes (p ∷ ps) (k ∷ ks) = bit_xor p k ∷ xor_bytes ps ks

all_below : ℕ → (ℕ → Bool) → Bool
all_below zero f = true
all_below (suc n) f = f n && all_below n f

all_below_sound : (n : ℕ) (f : ℕ → Bool) (x : ℕ) → all_below n f ≡ true → x < n → f x ≡ true
unfolding all_below
all_below_sound zero f x h lt = absurd (omega arith)
all_below_sound (suc n) f x h lt = ground (arith, all_below_sound n f x)

xor_table : all_below 256 (λ x. all_below 256 (λ k. bit_xor (bit_xor x k) k == x)) ≡ true
unfolding all_below
xor_table = refl

xor_twice : (x k : ℕ) → x < 256 → k < 256 → bit_xor (bit_xor x k) k ≡ x
xor_twice x k hx hk =
    let row =
      all_below_sound 256 (λ y. all_below 256 (λ j. bit_xor (bit_xor y j) j == y)) x xor_table hx in
    let cell = all_below_sound 256 (λ j. bit_xor (bit_xor x j) j == x) k row hk in ground arith

xor_bytes_twice :
    (ps ks : Bytes)
    → IsBytes ps
    → IsBytes ks
    → length ps ≤ length ks
    → xor_bytes (xor_bytes ps ks) ks ≡ ps
unfolding xor_bytes
xor_bytes_twice [] ks hp hk le = refl
xor_bytes_twice (p ∷ ps) [] hp hk le = absurd (omega arith)
xor_bytes_twice (p ∷ ps) (k ∷ ks) hp hk le =
    cc (xor_twice p k hp.0 hk.0, xor_bytes_twice ps ks hp.1 hk.1 (omega arith))

length-xor_bytes : (ps ks : Bytes) → length ps ≤ length ks → length (xor_bytes ps ks) ≡ length ps
unfolding xor_bytes
length-xor_bytes [] ks le = refl
length-xor_bytes (p ∷ ps) [] le = absurd (omega arith)
length-xor_bytes (p ∷ ps) (k ∷ ks) le = ap suc (length-xor_bytes ps ks (omega arith))

IsBytes-take : (n : ℕ) (xs : Bytes) → IsBytes xs → IsBytes (take n xs)
IsBytes-take zero xs h = tt
IsBytes-take (suc n) [] h = tt
IsBytes-take (suc n) (x ∷ xs) h = (h.0, IsBytes-take n xs h.1)

module _ (c : Crypto) where
  -- The `while` loop; each round adds a digest.
  pub keystream_loop : ℕ → Bytes → Bytes → ℕ → Bytes → ℕ → Bytes
  keystream_loop zero enc_key nonce size out block = out
  keystream_loop (suc fuel) enc_key nonce size out block =
      let rest =
        keystream_loop fuel enc_key nonce size (out ++ c.hmac enc_key (nonce ++ pack 4 block))
          (block + 1) in
      if ltb (length out) size then rest else out

  pub keystream : Bytes → Bytes → ℕ → Bytes
  keystream enc_key nonce size = take size (keystream_loop (suc size) enc_key nonce size [] 0)

  unfoldable pub hmac_seal : Bytes → Bytes → Bytes → Bytes → Bytes → Bytes
  hmac_seal enc_key mac_key nonce plaintext aad =
      let ct = xor_bytes plaintext (keystream enc_key nonce (length plaintext)) in
      ct ++ c.hmac mac_key (aad ++ ct)

  unfoldable pub hmac_open : Bytes → Bytes → Bytes → Bytes → Bytes → Option Bytes
  hmac_open enc_key mac_key nonce blob aad =
      let ct = take (length blob - 32) blob in
      let tag = drop (length blob - 32) blob in
      if ltb (length blob) 32
      then none
      else if bytes_eq (c.hmac mac_key (aad ++ ct)) tag
      then some (xor_bytes ct (keystream enc_key nonce (length ct)))
      else none

  -- Authenticity: what `_hmac_open` accepts is a ciphertext followed by the digest of the associated
  -- data and that ciphertext under the MAC key, and the plaintext is its decryption. So a blob with
  -- any other tag, or cut short, is refused.
  pub hmac_open_authentic :
      (enc_key mac_key nonce blob aad plaintext : Bytes)
      → hmac_open enc_key mac_key nonce blob aad ≡ some plaintext
      → (ct : Bytes) × (blob ≡ ct ++ c.hmac mac_key (aad ++ ct))
        × (plaintext ≡ xor_bytes ct (keystream enc_key nonce (length ct)))
  unfolding hmac_open
  hmac_open_authentic enc_key mac_key nonce blob aad plaintext h =
      let ct = take (length blob - 32) blob in
      let tag = drop (length blob - 32) blob in
      elim (Bool-cases (ltb (length blob) 32)) [
        | inl short ↦ let e : none ≡ some plaintext = rw short at h in absurd (cc e)
        | inr long ↦ elim (Bool-cases (bytes_eq (c.hmac mac_key (aad ++ ct)) tag)) [
          | inl same ↦
              let e : some (xor_bytes ct (keystream enc_key nonce (length ct))) ≡ some plaintext =
                rw (long, same) at h in
              (
                ct,
                sym (take-append-drop (length blob - 32) blob)
                    ∙ ap (λ (t : Bytes). ct ++ t) (sym (bytes_eq-eq _ tag same)),
                cc e,
              )
          | inr different ↦
              let e : none ≡ some plaintext = rw (long, different) at h in absurd (cc e)
        ]
      ]

  open_tagged :
      (enc_key mac_key nonce ct tag aad : Bytes)
      → length tag ≡ 32
      → hmac_open enc_key mac_key nonce (ct ++ tag) aad ≡ (
          if bytes_eq (c.hmac mac_key (aad ++ ct)) tag
          then some (xor_bytes ct (keystream enc_key nonce (length ct)))
          else none)
  unfolding hmac_open
  open_tagged enc_key mac_key nonce ct tag aad size =
      let long : ltb (length (ct ++ tag)) 32 ≡ false = ground (arith, length-append {0} ct tag) in
      let cut : length (ct ++ tag) - 32 ≡ length ct = omega (arith, length-append {0} ct tag) in
      rw (long, cut, take-append_exact, drop-append_exact)

  module _ (digests : HasDigests c) where
    length-keystream_loop :
        (fuel : ℕ) (enc_key nonce : Bytes) (size : ℕ) (out : Bytes) (block : ℕ)
        → size < length out + fuel
        → size ≤ length (keystream_loop fuel enc_key nonce size out block)
    unfolding keystream_loop
    length-keystream_loop zero enc_key nonce size out block h = omega arith
    length-keystream_loop (suc fuel) enc_key nonce size out block h =
        let d = c.hmac enc_key (nonce ++ pack 4 block) in
        ground (
          arith,
          length-append {0} out d,
          digests.width enc_key (nonce ++ pack 4 block),
          length-keystream_loop fuel enc_key nonce size (out ++ d) (block + 1),
        )

    length-keystream :
        (enc_key nonce : Bytes) (size : ℕ) → length (keystream enc_key nonce size) ≡ size
    unfolding keystream
    length-keystream enc_key nonce size = omega (
      arith,
      length-take {0} size (keystream_loop (suc size) enc_key nonce size [] 0),
      length-keystream_loop (suc size) enc_key nonce size [] 0 (omega arith),
    )

    keystream_loop-IsBytes :
        (fuel : ℕ) (enc_key nonce : Bytes) (size : ℕ) (out : Bytes) (block : ℕ)
        → IsBytes out
        → IsBytes (keystream_loop fuel enc_key nonce size out block)
    unfolding keystream_loop
    keystream_loop-IsBytes zero enc_key nonce size out block h = h
    keystream_loop-IsBytes (suc fuel) enc_key nonce size out block h =
        let d = c.hmac enc_key (nonce ++ pack 4 block) in
        elim (Bool-cases (ltb (length out) size)) [
          | inl more ↦ rw more (
              keystream_loop-IsBytes fuel enc_key nonce size (out ++ d) (block + 1)
                (IsBytes-append out d h (digests.bytes enc_key (nonce ++ pack 4 block))))
          | inr done ↦ rw done h
        ]

    keystream-IsBytes : (enc_key nonce : Bytes) (size : ℕ) → IsBytes (keystream enc_key nonce size)
    unfolding keystream
    keystream-IsBytes enc_key nonce size =
        IsBytes-take size _ (keystream_loop-IsBytes (suc size) enc_key nonce size [] 0 tt)

    -- Round trip: what `_hmac_seal` made, `_hmac_open` returns, for every message, under the same
    -- keys, nonce and associated data, if digests are 32 bytes.
    pub hmac_open-seal :
        (enc_key mac_key nonce plaintext aad : Bytes)
        → IsBytes plaintext
        → hmac_open enc_key mac_key nonce (hmac_seal enc_key mac_key nonce plaintext aad) aad
          ≡ some plaintext
    unfolding hmac_seal
    hmac_open-seal enc_key mac_key nonce plaintext aad bytes =
        let ks = keystream enc_key nonce (length plaintext) in
        let ct = xor_bytes plaintext ks in
        let room : length plaintext ≤ length ks =
          omega (arith, length-keystream enc_key nonce (length plaintext)) in
        open_tagged enc_key mac_key nonce ct (c.hmac mac_key (aad ++ ct)) aad
          (digests.width mac_key (aad ++ ct))
        ∙ rw (bytes_eq_refl, length-xor_bytes plaintext ks room)
            (ap some (
              xor_bytes_twice plaintext ks bytes
                (keystream-IsBytes enc_key nonce (length plaintext)) room))
