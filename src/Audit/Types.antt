-- ===== src/Audit/Types.antt =====
-- common/audit_log.py: the lines of the log and what is hashed of them.
use ganglion_oob.Prelude.{ℕ, String, Bool, ◌&&◌, Option, none, some, [], ◌∷◌}
use ganglion_oob.Prelude.Bytes.{Bytes}

-- A sequence number as it was read: an integer, or a value that Python counts as equal to it and
-- that JSON writes otherwise, as 1.0 or true.
pub data Number : Type 0 where
  integer equal_to : ℕ → Number

abbrev pub value : Number → ℕ
value (integer n) = n
value (equal_to n) = n

-- The fields that `_entry_hash` hashes; `V` is the type of JSON values.
pub record Payload (V : Type 0) : Type 0 where
  pub seq : Number
  pub ts : V
  pub actor : V
  pub vm_id : V
  pub verdict : V
  pub reason : V
  pub «data» : V
  pub prev_hash : String

-- A signature as it was read: absent, an ASCII text, or a value that `hmac.compare_digest` refuses,
-- which are the other texts and what is no text.
pub data Signature : Type 0 where
  unsigned : Signature
  text : String → Signature
  other : Signature

-- A JSON object as it was read, where `none` is an absent field, and also a seq that equals no natural
-- number and a hash that is no text.
pub record Entry (V : Type 0) : Type 0 where
  pub seq : Option Number
  pub ts : Option V
  pub actor : Option V
  pub vm_id : Option V
  pub verdict : Option V
  pub reason : Option V
  pub «data» : Option V
  pub prev_hash : Option String
  pub entry_hash : Option String
  pub sig : Signature

-- A line of the file: white space, no JSON, JSON that is no object, or an object.
pub data Line (V : Type 0) : Type 0 where
  blank malformed no_object : Line V
  object : Entry V → Line V

-- What the log takes from `hashlib`, `hmac` and `json`: whether a value has a JSON text and that text
-- is UTF-8, which a lone surrogate is not; the hex SHA-256 of the canonical JSON text of a payload of
-- such values; the hex HMAC of a text; and the empty JSON object.
pub record Hashes (V : Type 0) : Type 0 where
  pub encodes : V → Bool
  pub entry_hash : Payload V → String
  pub hmac_hex : Bytes → String → String
  pub empty_object : V

-- `_canonical` does not raise. A previous hash is ASCII where it is hashed.
unfoldable pub is_encodable : {V : Type 0} → Hashes V → Payload V → Bool
is_encodable h p =
    h.encodes p.ts
    && h.encodes p.actor
    && h.encodes p.vm_id
    && h.encodes p.verdict
    && h.encodes p.reason
    && h.encodes p.«data»

-- `GENESIS`; its 64 zeros.
abbrev pub genesis : String
genesis = "0000000000000000000000000000000000000000000000000000000000000000"

-- `_sign`; an empty key does not sign.
unfoldable pub sign : {V : Type 0} → Hashes V → Option Bytes → String → String
sign h none e = ""
sign h (some []) e = ""
sign h (some (k ∷ ks)) e = h.hmac_hex (k ∷ ks) e

-- The key is the given one, or the one of the environment.
abbrev pub resolve_key : Option Bytes → Option Bytes → Option Bytes
resolve_key (some k) env = some k
resolve_key none env = env
