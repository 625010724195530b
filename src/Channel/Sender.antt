-- ===== src/Channel/Sender.antt =====
-- common/secure_channel.py: `SecureSender`. The payload is given as its JSON text, the clock's and
-- the random generator's answers as arguments.
pub mod Delivery
use ganglion_oob.Prelude.{
  ℕ, ◌+◌, ◌%◌, ◌^◌, Bool, true, false, ◌&&◌, Option, none, some, ◌==◌, ltb, if◌then◌else◌, length,
}
use ganglion_oob.Prelude.Bytes.{Bytes}
use ganglion_oob.Channel.Crypto.{Crypto}
use ganglion_oob.Channel.Keys.{derive_agent_keys}
use ganglion_oob.Channel.Aead.{hmac_seal}
use ganglion_oob.Channel.Frame.{header, frame_bytes}

pub record Sender : Type 0 where
  pub agent_id : Bytes
  pub enc_key : Bytes
  pub mac_key : Bytes
  pub mode : ℕ
  pub counter : ℕ

-- `SecureSender(master_secret, agent_id, prefer_aesgcm)` at a time in milliseconds
pub new_sender : Crypto → Bytes → Bytes → Bool → ℕ → Sender
new_sender c master agent_id prefer_aesgcm now_ms =
    let (enc_key, mac_key) = derive_agent_keys c master agent_id in
    record {
      agent_id = agent_id;
      enc_key = enc_key;
      mac_key = mac_key;
      mode = if prefer_aesgcm && c.have_aesgcm then 1 else 2;
      counter = now_ms % 2 ^ 63;
    }

unfoldable pub encrypt : Crypto → Sender → Bytes → Bytes → Bytes → Bytes
encrypt c s nonce plaintext aad =
    if s.mode == 1
    then c.gcm_encrypt s.enc_key nonce plaintext aad
    else hmac_seal c s.enc_key s.mac_key nonce plaintext aad

-- `seal`; a name of more than 255 bytes does not fit its length byte, which is a ValueError, raised
-- after the counter was increased.
unfoldable pub seal : Crypto → Bytes → Bytes → Bytes → Sender → Sender × Option Bytes
seal c plaintext nonce timestamp s =
    let s' = record s { counter = s.counter + 1 } in
    let aad = header s'.mode s'.agent_id s'.counter timestamp nonce in
    (
      s',
      if ltb (length s'.agent_id) 256
          then some (frame_bytes aad (encrypt c s' nonce plaintext aad))
          else none,
    )
