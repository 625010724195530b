-- ===== src/Channel/Receiver.antt =====
-- common/secure_channel.py: `SecureReceiver`. `open` changes the key cache before it authenticates,
-- and the counters and nonces only after; what it had written when it raises stays written.
pub mod Replay
pub mod Security
use ganglion_oob.Prelude.{
  ℕ, ◌≡◌, Bool, true, false, not, ◌||◌, Option, none, some, List, [], ◌∷◌, leb, ◌==◌, if◌then◌else◌,
}
use ganglion_oob.Prelude.Bytes.{Bytes, bytes_eq}
use ganglion_oob.Channel.Crypto.{Crypto}
use ganglion_oob.Channel.Keys.{derive_agent_keys}
use ganglion_oob.Channel.Aead.{hmac_open}
use ganglion_oob.Channel.Outcome.{
  Refusal, Outcome, ok, refused, bad_version, unknown_agent, skewed, no_aesgcm, aead_failed,
  hmac_failed, bad_mode, replayed_nonce, counter_regression, not_json, spoofed, attribute_error,
  ◌>>=◌, ◌>>◌, require,
}
use ganglion_oob.Channel.Frame.{Frame, version, parse}
use ganglion_oob.Channel.Table.{Table, get, put}
use ganglion_oob.Channel.OrderedSet.{OrderedSet, new_set, contains, mem, add}

-- What a payload says about its vm_id: nothing or null, a text (in UTF-8), or another value.
pub data Claim : Type 0 where
  unclaimed : Claim
  claims : Bytes → Claim
  claims_other : Claim

-- `json.loads` of a plaintext: an error, a value that is no object, or an object.
pub data Json : Type 0 where
  invalid no_object : Json
  object : Claim → Json

-- The decoders of the standard library.
pub record Decoders : Type 0 where
  pub decodes : Bytes → Bool
  pub loads : Bytes → Json

pub record Receiver : Type 0 where
  pub master : Bytes
  pub allowed_agents : Option (List Bytes)
  pub keys : Table (Bytes × Bytes)
  pub last_counter : Table ℕ
  pub nonce_cache : Table OrderedSet

-- The payload is the JSON object of `plaintext` with its vm_id set to `vm_id`.
pub record Accepted : Type 0 where
  pub agent_id : Bytes
  pub vm_id : Bytes
  pub plaintext : Bytes

abbrev pub replay_cache_size : ℕ
replay_cache_size = 4096

unfoldable pub allowed : Option (List Bytes) → Bytes → Bool
allowed none a = true
allowed (some l) a = mem a l

-- The checks before any key is derived; `skew` says whether a timestamp is too far from now.
unfoldable pub admit : Decoders → (Bytes → Bool) → Receiver → Bytes → Outcome Frame
admit d skew r bytes = do
  f ← parse d.decodes bytes
  require (f.version == version) bad_version
  require (allowed r.allowed_agents f.agent_id) unknown_agent
  require (not (skew f.timestamp)) skewed
  ok f

-- `_keys_for`
unfoldable pub keys_for : Crypto → Bytes → Receiver → Receiver × (Bytes × Bytes)
keys_for c a r = elim (get a r.keys) [
  | some k ↦ (r, k)
  | none ↦ let k = derive_agent_keys c r.master a in (record r { keys = put a k r.keys }, k)
]

unfoldable pub decrypt : Crypto → Frame → Bytes × Bytes → Outcome Bytes
decrypt c f (enc_key, mac_key) =
    if f.mode == 1
    then if c.have_aesgcm
      then elim (c.gcm_decrypt enc_key f.nonce f.ct f.aad) [
        | none ↦ refused aead_failed
        | some p ↦ ok p
      ]
      else refused no_aesgcm
    else if f.mode == 2
    then elim (hmac_open c enc_key mac_key f.nonce f.ct f.aad) [
      | none ↦ refused hmac_failed
      | some p ↦ ok p
    ]
    else refused bad_mode

-- `counter <= last`, where a missing counter is -1
unfoldable pub regresses : Option ℕ → ℕ → Bool
regresses none n = false
regresses (some last) n = leb n last

abbrev pub cache_for : Bytes → Receiver → OrderedSet
cache_for a r = elim (get a r.nonce_cache) [ none ↦ new_set replay_cache_size | some s ↦ s ]

-- The locked part: replay protection.
unfoldable pub register_frame : Frame → Receiver → Receiver × Outcome (Unit {0})
register_frame f r =
    let cache = cache_for f.agent_id r in
    let seen = record r { nonce_cache = put f.agent_id cache r.nonce_cache } in
    if contains cache f.nonce
    then (seen, refused replayed_nonce)
    else if regresses (get f.agent_id r.last_counter) f.counter
    then (seen, refused counter_regression)
    else (
      record r {
        last_counter = put f.agent_id f.counter r.last_counter;
        nonce_cache = put f.agent_id (add f.nonce cache) r.nonce_cache;
      },
      ok tt,
    )

abbrev pub bind_identity : Bytes → Bytes → Claim → Outcome Accepted
bind_identity a plaintext unclaimed = ok (record { agent_id = a; vm_id = a; plaintext = plaintext })
bind_identity a plaintext (claims b) =
    if bytes_eq b a
    then ok (record { agent_id = a; vm_id = a; plaintext = plaintext })
    else refused spoofed
bind_identity a plaintext claims_other = refused spoofed

-- The last part: the payload and its identity.
unfoldable pub bind_payload : Decoders → Frame → Bytes → Outcome Accepted
bind_payload d f plaintext = elim (d.loads plaintext) [
  | invalid ↦ refused not_json
  | no_object ↦ refused attribute_error
  | object claim ↦ bind_identity f.agent_id plaintext claim
]

-- The parts of `open` after the frame has been admitted.
unfoldable pub open_admitted : Crypto → Decoders → Frame → Receiver → Receiver × Outcome Accepted
open_admitted c d f r =
    let (r', keys) = keys_for c f.agent_id r in
    elim (decrypt c f keys) [
      | refused e ↦ (r', refused e)
      | ok plaintext ↦
          let (r'', fresh) = register_frame f r' in
          elim fresh [ refused e ↦ (r'', refused e) | ok _ ↦ (r'', bind_payload d f plaintext) ]
    ]

-- `SecureReceiver.open`
unfoldable pub open_frame :
    Crypto → Decoders → (Bytes → Bool) → Bytes → Receiver → Receiver × Outcome Accepted
open_frame c d skew bytes r = elim (admit d skew r bytes) [
  | refused e ↦ (r, refused e)
  | ok f ↦ open_admitted c d f r
]

-- Any calls of `open`, at any times.
pub data Reach (c : Crypto) (d : Decoders) (r : Receiver) : Receiver → Type 0 where
  here : Reach c d r r
  next :
      {s : Receiver} (skew : Bytes → Bool) (bytes : Bytes)
      → Reach c d r s
      → Reach c d r (open_frame c d skew bytes s).0
