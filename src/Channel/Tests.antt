-- ===== src/Channel/Tests.antt =====
-- The channel at small frames, and its theorems there. The keyed hash is constant and the cipher
-- leaves the message as it is.
use ganglion_oob.Prelude.{
  ℕ, zero, suc, ◌<◌, ◌≡◌, ◌==◌, Option, if◌then◌else◌, Bool, refl, ap, ◌∙◌, inl, true, false, none,
  some, [], ◌∷◌, arith, length, ◌^◌,
}
use ganglion_oob.Prelude.Bytes.{Bytes, IsBytes, bytes_eq}
use ganglion_oob.Channel.Crypto.{Crypto, HasDigests}
use ganglion_oob.Channel.Keys.{ascii, zeros}
use ganglion_oob.Channel.Aead.{hmac_open, xor_bytes}
use ganglion_oob.Channel.Outcome.{
  Outcome, ok, refused, aead_failed, attribute_error, require, bad_version, unknown_agent, ◌>>◌,
}
use ganglion_oob.Channel.Frame.{Frame, header, frame_bytes, parse}
use ganglion_oob.Channel.Frame.RoundTrip.{parse-frame_bytes}
use ganglion_oob.Channel.Table.{get, put}
use ganglion_oob.Channel.OrderedSet.{OrderedSet, mem, contains, add}
use ganglion_oob.Channel.Receiver.{
  Decoders, Receiver, Accepted, Json, invalid, no_object, object, unclaimed, claims, allowed, admit,
  keys_for, decrypt, regresses, register_frame, bind_payload, open_admitted, open_frame, here,
}
use ganglion_oob.Channel.Receiver.Security.{forgery_leaves_replay_state, accepted_counters_increase}
use ganglion_oob.Channel.Sender.{Sender, encrypt, seal}
use ganglion_oob.Channel.Sender.Delivery.{HasGcm, IsWelcome, open_frame-seal, open_frame-no_object}

-- A sealed message begins with 7.
abbrev opened : Bytes → Option Bytes
opened [] = none
opened (x ∷ xs) = if x == 7 then some xs else none

abbrev plain : Crypto
plain = record {
  hmac = λ k m. zeros 32;
  have_aesgcm = true;
  gcm_encrypt = λ key nonce message aad. 7 ∷ message;
  gcm_decrypt = λ key nonce blob aad. opened blob;
}

zeros-IsBytes : (n : ℕ) → IsBytes (zeros n)
zeros-IsBytes zero = tt
zeros-IsBytes (suc n) = (omega arith, zeros-IsBytes n)

plain-HasDigests : HasDigests plain
plain-HasDigests = record { width = λ k m. refl; bytes = λ k m. zeros-IsBytes 32 }

plain-HasGcm : HasGcm plain
plain-HasGcm = record { inverse = λ key nonce message aad. refl }

abbrev agent : Bytes
agent = ascii "a"

-- One byte is a whole payload: 0 is an object, 1 an object that claims the agent, 2 a number, and
-- nothing else is JSON.
abbrev loads_of : Bytes → Json
loads_of (x ∷ []) =
    if x == 0
    then object unclaimed
    else if x == 1
    then object (claims agent)
    else if x == 2
    then no_object
    else invalid
loads_of xs = invalid

abbrev decoders : Decoders
decoders = record { decodes = λ x. true; loads = loads_of }

abbrev in_time : Bytes → Bool
in_time t = false

abbrev receiver : Receiver
receiver = record {
  master = [];
  allowed_agents = some (agent ∷ []);
  keys = (agent, ([], [])) ∷ [];
  last_counter = [];
  nonce_cache = [];
}

abbrev head : ℕ → ℕ → Bytes
head counter nonce = header 1 agent counter (zeros 8) (nonce ∷ zeros 11)

abbrev frame : ℕ → ℕ → Bytes → Bytes
frame counter nonce ct = frame_bytes (head counter nonce) ct

abbrev fields : ℕ → ℕ → Bytes → Frame
fields counter nonce ct = record {
  version = 2;
  mode = 1;
  agent_id = agent;
  counter = counter;
  timestamp = zeros 8;
  nonce = nonce ∷ zeros 11;
  aad = head counter nonce;
  ct = ct;
}

abbrev accepted : Bytes → Accepted
accepted plaintext = record { agent_id = agent; vm_id = agent; plaintext = plaintext }

parses :
    (counter nonce : ℕ) (ct : Bytes)
    → counter < 256 ^ 8
    → length ct < 256 ^ 4
    → parse decoders.decodes (frame counter nonce ct) ≡ ok (fields counter nonce ct)
parses counter nonce ct counter_fits ct_fits =
    parse-frame_bytes 1 agent counter (zeros 8) (nonce ∷ zeros 11) ct refl refl counter_fits ct_fits
      decoders.decodes refl

frame_5 : parse decoders.decodes (frame 5 1 (7 ∷ 0 ∷ [])) ≡ ok (fields 5 1 (7 ∷ 0 ∷ []))
frame_5 = parses 5 1 (7 ∷ 0 ∷ []) (omega arith) (omega arith)

frame_6 : parse decoders.decodes (frame 6 2 (7 ∷ 1 ∷ [])) ≡ ok (fields 6 2 (7 ∷ 1 ∷ []))
frame_6 = parses 6 2 (7 ∷ 1 ∷ []) (omega arith) (omega arith)

forged_frame : parse decoders.decodes (frame 9 3 (8 ∷ [])) ≡ ok (fields 9 3 (8 ∷ []))
forged_frame = parses 9 3 (8 ∷ []) (omega arith) (omega arith)

-- The receiver once agent `a` has counter `counter` and used `nonce`.
abbrev receiver_after : ℕ → Bytes → Receiver
receiver_after counter nonce = record receiver {
  last_counter = (agent, counter) ∷ [];
  nonce_cache = (agent, record { maxlen = 4096; items = nonce ∷ []; order = nonce ∷ [] }) ∷ [];
}

admits :
    (bytes : Bytes) (r : Receiver) (f : Frame)
    → parse decoders.decodes bytes ≡ ok f
    → admit decoders in_time r bytes ≡ (do
      require (f.version == 2) bad_version
      require (allowed r.allowed_agents f.agent_id) unknown_agent
      ok f)
unfolding admit
admits bytes r f e = rw (e, admit) refl

open_5 :
    open_frame plain decoders in_time (frame 5 1 (7 ∷ 0 ∷ [])) receiver
    ≡ (receiver_after 5 (1 ∷ zeros 11), ok (accepted (0 ∷ [])))
unfolding open_frame open_admitted allowed keys_for decrypt register_frame regresses bind_payload
    get put mem contains add bytes_eq
open_5 = rw (admits _ receiver _ frame_5, open_frame) refl

open_6 :
    (open_frame plain decoders in_time (frame 6 2 (7 ∷ 1 ∷ [])) (receiver_after 5 (1 ∷ zeros 11))).1
    ≡ ok (accepted (1 ∷ []))
unfolding open_frame open_admitted allowed keys_for decrypt register_frame regresses bind_payload
    get put mem contains add bytes_eq
open_6 = rw (admits _ (receiver_after 5 (1 ∷ zeros 11)) _ frame_6, open_frame) refl

accepted_counters_increase_example : 5 < 6
accepted_counters_increase_example =
    accepted_counters_increase plain decoders in_time in_time (frame 5 1 (7 ∷ 0 ∷ []))
      (frame 6 2 (7 ∷ 1 ∷ [])) receiver (accepted (0 ∷ [])) (accepted (1 ∷ []))
      (fields 5 1 (7 ∷ 0 ∷ [])) (fields 6 2 (7 ∷ 1 ∷ []))
      (ap (λ (p : Receiver × Outcome Accepted). p.1) open_5) here
      (ap (λ (r : Receiver). (open_frame plain decoders in_time (frame 6 2 (7 ∷ 1 ∷ [])) r).1)
          (ap (λ (p : Receiver × Outcome Accepted). p.0) open_5)
        ∙ open_6)
      refl frame_5 frame_6

admits_agent :
    (bytes : Bytes) (f : Frame)
    → parse decoders.decodes bytes ≡ ok f
    → f.version ≡ 2
    → f.agent_id ≡ agent
    → admit decoders in_time receiver bytes ≡ ok f
unfolding allowed mem bytes_eq
admits_agent bytes f e v a = admits bytes receiver f e ∙ rw (v, a) refl

forged_decrypt :
    decrypt plain (fields 9 3 (8 ∷ [])) (keys_for plain agent receiver).1 ≡ refused aead_failed
unfolding decrypt keys_for get bytes_eq
forged_decrypt = refl

forgery_leaves_replay_state_example :
    ((open_frame plain decoders in_time (frame 9 3 (8 ∷ [])) receiver).0.last_counter ≡ [])
    × ((open_frame plain decoders in_time (frame 9 3 (8 ∷ [])) receiver).0.nonce_cache ≡ [])
    × ((open_frame plain decoders in_time (frame 9 3 (8 ∷ [])) receiver).1 ≡ refused aead_failed)
forgery_leaves_replay_state_example =
    forgery_leaves_replay_state plain decoders in_time (frame 9 3 (8 ∷ [])) receiver
      (fields 9 3 (8 ∷ [])) aead_failed (admits_agent _ _ forged_frame refl refl) forged_decrypt

abbrev sender : Sender
sender = record { agent_id = agent; enc_key = []; mac_key = []; mode = 1; counter = 5 }

sender-IsWelcome :
    (payload : ℕ)
    → payload < 256
    → IsWelcome plain plain-HasDigests plain-HasGcm decoders in_time sender
        (1 ∷ zeros 11)
        (zeros 8)
        (payload ∷ [])
        receiver
unfolding allowed keys_for get bytes_eq contains mem regresses
sender-IsWelcome payload small = record {
  name_fits = omega arith;
  name_decodes = refl;
  is_allowed = refl;
  in_time = refl;
  has_mode = inl (refl, refl);
  same_keys = refl;
  counter_fits = omega arith;
  timestamp_size = refl;
  nonce_size = refl;
  new_nonce = refl;
  new_counter = refl;
  bytes = (small, tt);
}

sealed_size :
    (payload : ℕ)
    → length
        (encrypt plain (record sender { counter = 6 }) (1 ∷ zeros 11) (payload ∷ []) (head 6 1))
      < 256 ^ 4
unfolding encrypt
sealed_size payload = omega arith

open_frame-seal_example :
    (bytes : Bytes) × ((seal plain (0 ∷ []) (1 ∷ zeros 11) (zeros 8) sender).1 ≡ some bytes)
    × ((open_frame plain decoders in_time bytes receiver).1 ≡ ok (accepted (0 ∷ [])))
open_frame-seal_example =
    open_frame-seal plain plain-HasDigests plain-HasGcm decoders in_time sender (1 ∷ zeros 11)
      (zeros 8) (0 ∷ []) receiver (sender-IsWelcome 0 (omega arith)) (inl refl) (sealed_size 0)

open_frame-no_object_example :
    (bytes : Bytes) × ((seal plain (2 ∷ []) (1 ∷ zeros 11) (zeros 8) sender).1 ≡ some bytes)
    × ((open_frame plain decoders in_time bytes receiver).1 ≡ refused attribute_error)
    × (get agent (open_frame plain decoders in_time bytes receiver).0.last_counter ≡ some 6)
open_frame-no_object_example =
    open_frame-no_object plain plain-HasDigests plain-HasGcm decoders in_time sender (1 ∷ zeros 11)
      (zeros 8) (2 ∷ []) receiver (sender-IsWelcome 2 (omega arith)) refl (sealed_size 2)

empty_opens : hmac_open plain [] [] [] (zeros 32) [] ≡ some []
unfolding hmac_open bytes_eq xor_bytes
empty_opens = refl

abbrev full : OrderedSet
full = record { maxlen = 1; items = agent ∷ []; order = agent ∷ [] }
