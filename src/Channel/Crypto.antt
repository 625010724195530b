-- ===== src/Channel/Crypto.antt =====
-- What common/secure_channel.py takes from `hmac`, `hashlib` and the `cryptography` package: a keyed
-- hash and the AES-GCM cipher. They are parameters of the model; the laws that a theorem needs are
-- its hypotheses.
use ganglion_oob.Prelude.{◌≡◌, Bool, Option, length}
use ganglion_oob.Prelude.Bytes.{Bytes, IsBytes}

pub record Crypto : Type 0 where
  -- `hmac.new(key, message, hashlib.sha256).digest()`
  pub hmac : Bytes → Bytes → Bytes
  -- `_HAVE_AESGCM`
  pub have_aesgcm : Bool
  -- `AESGCM(key).encrypt(nonce, data, aad)` and `decrypt`, where `none` is the exception.
  pub gcm_encrypt : Bytes → Bytes → Bytes → Bytes → Bytes
  pub gcm_decrypt : Bytes → Bytes → Bytes → Bytes → Option Bytes

-- A SHA-256 digest has 32 bytes.
pub record HasDigests (c : Crypto) : Type 0 where
  pub width : (k m : Bytes) → length (c.hmac k m) ≡ 32
  pub bytes : (k m : Bytes) → IsBytes (c.hmac k m)
