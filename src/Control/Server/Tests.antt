-- ===== src/Control/Server/Tests.antt =====
-- The servers at small inputs, and the theorems at them.
use ganglion_oob.Prelude.{
  String, none, some, Bool, true, false, [], ◌∷◌, ◌≡◌, ◌⊎◌, refl, leb, arith, length,
}
use ganglion_oob.Prelude.Text.{starts_with}
use ganglion_oob.Prelude.Bytes.{Bytes, pack, unpack_from, bytes_eq}
use ganglion_oob.Channel.Keys.{ascii, zeros}
use ganglion_oob.Prelude.Dict.{lookup, insert}
use ganglion_oob.Channel.Crypto.{Crypto}
use ganglion_oob.Channel.Frame.{header, frame_bytes, parse, unpack, byte_at}
use ganglion_oob.Channel.Receiver.{
  Decoders, object, unclaimed, open_frame, open_admitted, allowed, admit, keys_for, decrypt,
  register_frame, regresses, bind_payload,
}
use ganglion_oob.Channel.Table.{get, put}
use ganglion_oob.Channel.OrderedSet.{mem, contains, add}
use ganglion_oob.Control.Tests.{blank_engine, digits, spikes, hit, response}
use ganglion_oob.Control.VmId.{safe_vm_id, clean, is_safe}
use ganglion_oob.Control.Scoring.{
  isolation_threshold, recalculate_score, resolve_delta, push_event, purge_from,
}
use ganglion_oob.Control.Engine.{vm_of, process_batch, process_events, process_event, respond}
use ganglion_oob.Control.Isolation.{Response, Containment}
use ganglion_oob.Control.Server.{
  Request, restore, serve, guard, unauthorized, is_protected, path_of, is_local, supplied,
}
use ganglion_oob.Control.Server.Access.{IsHarmless, stranger-IsHarmless}
use ganglion_oob.Control.Server.Wire.{
  Connection, recv_framed, recv_exact, recv_loop, recv, concat, recv_framed-pack,
}
use ganglion_oob.Control.Server.Telemetry.{TelemetryServer, Texts, telemetry}
use ganglion_oob.Control.Server.Telemetry.Authentic.{IsAuthentic, view, telemetry-IsAuthentic}
use ganglion_oob.Control.Server.Worker.{Worker, round}
use ganglion_oob.Control.Server.Worker.Drained.{process_batch-isolated}
use ganglion_oob.Control.Server.Worker.Keeps.{isolated_at}

-- A remote caller who sends a wrong token.
abbrev stranger : Request
stranger = record {
  remote_addr = "10.0.0.9";
  method = "POST";
  route = restore "web-01";
  token = some "guess";
  authorization = none;
  by = none;
  assignee = none;
  note = none;
  text = none;
  short = "";
}

abbrev same_text : String → String
same_text s = s

stranger-IsHarmless_example : IsHarmless 5 hit (serve digits same_text none "secret" 5 stranger hit)
unfolding is_local supplied
stranger-IsHarmless_example =
    stranger-IsHarmless digits same_text none "secret" 5 stranger hit refl refl

stranger_refused : (serve digits same_text none "secret" 5 stranger hit).answer ≡ unauthorized
unfolding serve guard is_protected starts_with path_of is_local supplied
stranger_refused = refl

-- A frame of three bytes whose length and body are cut in odd places.
abbrev cut : Connection
cut = (0 ∷ 0 ∷ []) ∷ (0 ∷ 3 ∷ 7 ∷ []) ∷ (8 ∷ 9 ∷ 5 ∷ []) ∷ []

recv_framed-pack_example : recv_framed cut ≡ some (7 ∷ 8 ∷ 9 ∷ [])
unfolding concat pack
recv_framed-pack_example =
    recv_framed-pack cut (7 ∷ 8 ∷ 9 ∷ []) (5 ∷ []) (omega arith) refl
      (omega arith, (omega arith, (omega arith, tt)))

-- A connection that is closed too early gives nothing.
closed_early : recv_framed ((0 ∷ 0 ∷ []) ∷ []) ≡ none
unfolding recv_framed recv_exact recv_loop recv
closed_early = refl

abbrev plain : Crypto
plain = record {
  hmac = λ k m. zeros 32;
  have_aesgcm = true;
  gcm_encrypt = λ key nonce message aad. message;
  gcm_decrypt = λ key nonce blob aad. some blob;
}

abbrev decoders : Decoders
decoders = record { decodes = λ x. true; loads = λ x. object unclaimed }

abbrev texts : Texts
texts = record { decode = λ x. "web-01"; batch = λ x. spikes; digits = digits }

abbrev in_time : Bytes → Bool
in_time t = false

abbrev agent_frame : Bytes
agent_frame = frame_bytes (header 1 (ascii "web-01") 5 (zeros 8) (zeros 12)) (1 ∷ [])

abbrev server : TelemetryServer
server = record {
  engine = blank_engine;
  receiver = record {
    master = [];
    allowed_agents = none;
    keys = (ascii "web-01", ([], [])) ∷ [];
    last_counter = [];
    nonce_cache = [];
  };
}

abbrev sent : Connection
sent = (0 ∷ 0 ∷ 0 ∷ length agent_frame ∷ []) ∷ agent_frame ∷ []

telemetry-IsAuthentic_example :
    (view "web-01" (telemetry plain decoders texts 1000000 in_time sent server).engine
      ≡ view "web-01" blank_engine)
    ⊎ IsAuthentic plain decoders texts 1000000 in_time sent server "web-01"
telemetry-IsAuthentic_example =
    telemetry-IsAuthentic plain decoders texts 1000000 in_time sent server "web-01"

-- The frame is accepted, and its machine is queued.
frame_counts :
    (telemetry plain decoders texts 1000000 in_time sent server).engine.isolation_queue
    ≡ "web-01" ∷ []
unfolding telemetry recv_framed recv_exact recv_loop recv header frame_bytes pack open_frame
    open_admitted allowed keys_for decrypt register_frame regresses bind_payload get put mem
    contains add bytes_eq parse admit unpack unpack_from byte_at process_batch process_events
    process_event respond vm_of recalculate_score safe_vm_id clean is_safe resolve_delta push_event
    purge_from lookup insert
frame_counts = refl

abbrev working : Worker
working = record { engine = blank_engine; last_watchdog = 0 }

reached :
    leb isolation_threshold
      (vm_of
        (safe_vm_id (some "web-01"))
        (process_batch digits 1000000 (some "web-01") spikes blank_engine)).threat_score
    ≡ true
unfolding process_batch process_events process_event respond vm_of recalculate_score safe_vm_id
    clean is_safe resolve_delta push_event purge_from lookup insert
reached = refl

abbrev refusals : String → Bool × Containment
refusals vm_id = (false, Containment.absent)

abbrev responses : String → Response
responses vm_id = response

process_batch-isolated_example :
    (isolated_at
        (safe_vm_id (some "web-01"))
        (round refusals responses 1000300 (record working { engine = hit })).engine
      ≡ true)
    × ((round refusals responses 1000300 (record working { engine = hit })).engine.block_queue ≡ [])
process_batch-isolated_example =
    process_batch-isolated refusals responses 1000300 digits 1000000 (some "web-01") spikes working
      reached
