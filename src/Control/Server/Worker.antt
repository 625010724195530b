-- ===== src/Control/Server/Worker.antt =====
-- host_control_plane/control_center.py: the loop of `main`, which carries out what is queued and runs
-- the watchdog every five seconds. Times are in milliseconds.
pub mod Keeps
pub mod Drained
use ganglion_oob.Prelude.{ℕ, ◌+◌, String, Bool, ltb, if◌then◌else◌}
use ganglion_oob.Control.Engine.{Engine, watchdog_sweep}
use ganglion_oob.Control.Isolation.{Containment, Response, drain_queues}

pub record Worker : Type 0 where
  pub engine : Engine
  pub last_watchdog : ℕ

-- One round, with what the outside answers to the blocks and the isolations.
unfoldable pub round : (String → Bool × Containment) → (String → Response) → ℕ → Worker → Worker
round block isolate now w =
    let drained = drain_queues block isolate w.engine in
    if ltb (w.last_watchdog + 5000) now
    then record { engine = watchdog_sweep now drained; last_watchdog = now }
    else record w { engine = drained }
