-- ===== src/Channel/Outcome.antt =====
-- The ways in which `SecureReceiver.open` fails: `AuthError` with its reason, and the
-- `AttributeError` of a payload that is JSON but no object.
use ganglion_oob.Prelude.{Bool, true, false}

pub data Refusal : Type 0 where
  bad_magic malformed bad_version unknown_agent skewed no_aesgcm aead_failed hmac_failed bad_mode :
      Refusal
  replayed_nonce counter_regression not_json spoofed attribute_error : Refusal

pub data Outcome (A : Type 0) : Type 0 where
  ok : A → Outcome A
  refused : Refusal → Outcome A

infixl 5 ◌>>=◌ ◌>>◌
abbrev pub ◌>>=◌ : {A B : Type 0} → Outcome A → (A → Outcome B) → Outcome B
ok a >>= f = f a
refused r >>= f = refused r

abbrev pub ◌>>◌ : {B : Type 0} → Outcome (Unit {0}) → Outcome B → Outcome B
m >> k = m >>= λ _. k

-- `if not condition: raise AuthError(...)`
abbrev pub require : Bool → Refusal → Outcome (Unit {0})
require true r = ok tt
require false r = refused r
