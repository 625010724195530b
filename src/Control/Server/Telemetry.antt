-- ===== src/Control/Server/Telemetry.antt =====
-- host_control_plane/control_center.py: the telemetry server, which opens a frame and hands its
-- payload to the engine. A connection that ends early, or a frame that is refused, is dropped.
pub mod Authentic
use ganglion_oob.Prelude.{ℕ, String, none, some, Bool, List}
use ganglion_oob.Prelude.Bytes.{Bytes}
use ganglion_oob.Channel.Crypto.{Crypto}
use ganglion_oob.Channel.Outcome.{ok, refused}
use ganglion_oob.Channel.Receiver.{Decoders, Receiver, Accepted, open_frame}
use ganglion_oob.Control.Engine.{Engine, RawEvent, process_batch}
use ganglion_oob.Control.Server.Wire.{Connection, recv_framed}

pub record TelemetryServer : Type 0 where
  pub engine : Engine
  pub receiver : Receiver

-- What Python's libraries read of bytes: a text of its UTF-8, the events of a payload's batch; and
-- how they print a number.
pub record Texts : Type 0 where
  pub decode : Bytes → String
  pub batch : Bytes → List RawEvent
  pub digits : ℕ → String

module _ (c : Crypto) (d : Decoders) (texts : Texts) where
  -- The payload that `open` returns carries the vm_id that it has bound.
  abbrev pub take_in : ℕ → Accepted → Engine → Engine
  take_in now acc e =
      process_batch texts.digits now (some (texts.decode acc.vm_id)) (texts.batch acc.plaintext) e

  -- `TelemetryHandler.handle`
  unfoldable pub telemetry : ℕ → (Bytes → Bool) → Connection → TelemetryServer → TelemetryServer
  telemetry now skew conn s = elim (recv_framed conn) [
    | none ↦ s
    | some raw ↦
        let (receiver, outcome) = open_frame c d skew raw s.receiver in
        elim outcome [
          | refused e ↦ record s { receiver = receiver }
          | ok acc ↦ record { engine = take_in now acc s.engine; receiver = receiver }
        ]
  ]
