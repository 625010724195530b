-- ===== src/Channel/Frame.antt =====
-- common/secure_channel.py: the wire format, as `SecureSender.seal` writes it and the first part of
-- `SecureReceiver.open` reads it.
pub mod RoundTrip
use ganglion_oob.Prelude.{
  ℕ, zero, suc, ◌+◌, ◌-◌, ◌^◌, ◌<◌, ◌≤◌, ◌≡◌, refl, sym, ap, ◌∙◌, Bool, true, false, List, [], ◌∷◌,
  ◌++◌, arith, length, length-append, take, drop, take-append_exact, drop-append_exact, ◌==◌,
}
use ganglion_oob.Prelude.Bytes.{
  Bytes, bytes_eq, bytes_eq_refl, pack, length-pack, unpack_from, unpack-pack,
}
use ganglion_oob.Channel.Keys.{ascii}
use ganglion_oob.Channel.Outcome.{Outcome, ok, refused, bad_magic, malformed, ◌>>=◌, ◌>>◌, require}

abbrev pub magic : Bytes
magic = ascii "VG02"

abbrev pub version : ℕ
version = 2

-- The fields of a frame. The timestamp is the eight bytes of its double, and the associated data is
-- everything before the length of the ciphertext.
pub record Frame : Type 0 where
  pub version : ℕ
  pub mode : ℕ
  pub agent_id : Bytes
  pub counter : ℕ
  pub timestamp : Bytes
  pub nonce : Bytes
  pub aad : Bytes
  pub ct : Bytes

-- `frame[off:off + n]`
abbrev pub slice : Bytes → ℕ → ℕ → Bytes
slice frame off n = take n (drop off frame)

-- `frame[i]`
unfoldable pub byte_at : Bytes → ℕ → Outcome ℕ
byte_at [] i = refused malformed
byte_at (x ∷ xs) zero = ok x
byte_at (x ∷ xs) (suc i) = byte_at xs i

-- `struct.unpack` wants exactly the bytes of its format.
unfoldable pub unpack : ℕ → Bytes → Outcome ℕ
unpack k bs = require (length bs == k) malformed >> ok (unpack_from 0 bs)

-- The header that the sender authenticates.
unfoldable pub header : ℕ → Bytes → ℕ → Bytes → Bytes → Bytes
header mode agent_id counter timestamp nonce =
    magic
    ++ (version ∷ mode ∷ length agent_id ∷ [])
    ++ agent_id
    ++ pack 8 counter
    ++ timestamp
    ++ nonce

unfoldable pub frame_bytes : Bytes → Bytes → Bytes
frame_bytes aad ct = aad ++ pack 4 (length ct) ++ ct

-- The `try` block of `open`; `decodes` says whether bytes are UTF-8.
unfoldable pub parse : (Bytes → Bool) → Bytes → Outcome Frame
parse decodes frame = do
  require (bytes_eq (take 4 frame) magic) bad_magic
  v ← byte_at frame 4
  mode ← byte_at frame 5
  id_len ← byte_at frame 6
  let agent_id = slice frame 7 id_len
  let off = 7 + id_len
  require (decodes agent_id) malformed
  counter ← unpack 8 (slice frame off 8)
  let timestamp = slice frame (off + 8) 8
  require (length timestamp == 8) malformed
  let nonce = slice frame (off + 16) 12
  let header_end = off + 28
  ct_len ← unpack 4 (slice frame header_end 4)
  ok (record {
    version = v;
    mode = mode;
    agent_id = agent_id;
    counter = counter;
    timestamp = timestamp;
    nonce = nonce;
    aad = take header_end frame;
    ct = slice frame (header_end + 4) ct_len;
  })
