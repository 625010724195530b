-- ===== src/Lib.antt =====
-- Verification library of Ganglion-OOB, an out-of-band defence of virtual machines.
--
-- The program: an agent in each guest (guest_production_vm) seals telemetry into frames; the control
-- plane (host_control_plane) opens them, scores what they report, raises alerts, fails services over
-- and contains hosts; the decision engine explains which action a host's facts call for; each
-- decision is written to a log of chained hashes; a self-healing layer watches the components.
--
-- The parts, each a tree of modules under the file of its name:
--   Decision  decision_engine/decision_engine.py: `Fact`, `Engine`, the weighted rules, the hard
--             gates and `decide`. Children: what the scores, gates and margins imply.
--   Failover  host_control_plane/failover_orchestrator.py: the orchestrator's dicts as `Orchestrator`,
--             `handle_compromise`, the two locked parts of the cure thread as `cure_begin` and
--             `cure_finish`, `reset_service`. The answers of the backend and of the clock are
--             arguments. Failover.Steps is the step relation of all interleavings of these calls;
--             a step is one section under the lock.
--   Channel   common/secure_channel.py: `derive_agent_keys`, `hmac_seal` and `hmac_open`, the wire
--             format as `frame_bytes` and `parse`, `SecureSender.seal`, `SecureReceiver.open` as
--             `open_frame`, the nonce cache as Channel.OrderedSet. Text is its UTF-8 bytes. HMAC and
--             AES-GCM are the record `Crypto`, the decoders of UTF-8 and JSON the record `Decoders`;
--             that digests have 32 bytes and that the cipher's decryption undoes its encryption are
--             the hypotheses `HasDigests` and `HasGcm`. The skew test of a timestamp is an argument.
--   Audit     common/audit_log.py: the file as a list of lines, of which the last may lack its newline,
--             `record`, `_resume` as `resume`, and `verify_file` with the exceptions that leave it. The
--             hashes, and which values have a UTF-8 JSON text, are the record `Hashes`; JSON values are
--             a type parameter.
--   Healing   self_healing/healing_orchestrator.py and self_healing/health_monitor.py: the circuit
--             breaker, the monitor, and the playbooks, whose commands come back over the bus.
--   Alerts    host_control_plane/alert_manager.py: the alerts, their deduplication and the analysts'
--             actions.
--   Firewall  blue_team/firewall/firewall.py: the rules and their ordered evaluation. Membership of an
--             address in a network is an argument.
--   Control   host_control_plane/control_center.py: `CorrelationEngine` as Control.Engine and
--             Control.Isolation. `process_batch`, `watchdog_sweep` and the other methods are functions
--             of the engine's state; the locked parts of `_trigger_isolation` are functions of their
--             own, and Control.Isolation.Steps is the relation of all their interleavings. The answers
--             of the hypervisor and of the host's firewall are arguments. Control.Server is what stands
--             around the engine: `recv_framed` over a connection that is a list of pieces, the handler
--             of the telemetry server, the guard of the HTTP routes and what each route does to the
--             engine, and one round of the loop of `main`.
--   Containment  host_control_plane/containment.py: the commands of each platform's backend, `_run`,
--             `isolate_host`, `lift` and `build_backend`. What a command does is an argument;
--             Control.Isolation.Rules joins it to the correlation engine.
--   KillChain  blue_team/killchain_reconstructor/killchain_reconstructor.py: `reconstruct`. Python's
--             sorting of texts is an argument, and completeness is kept as a number of stages.
--   Mitre     common/mitre_attack.py: the catalogue of techniques and `map_event_to_techniques`.
--   Blast     blue_team/blast_radius/blast_radius.py: `NetworkModel`, the breadth-first search of
--             `compute`, its paths and its criticality. The score is kept as two sums, whose quotient
--             is a float in the source.
--   SafeEval  common/safe_eval.py: the methods of `_Parser` as one function `run` on the name of the
--             method, and the grammar of the file's head as the relation SafeEval.Grammar. Python's
--             numbers are the record `Numbers`; the tokens come as a list, `_tokenize` is left out.
--   Prelude   what the parts share: tests and lists over the native numbers, Python's dict
--             (Prelude.Dict), integers (Prelude.Int) and bytes (Prelude.Bytes).
--
-- How they meet: the correlation engine holds an alert manager, a decision engine and a failover
-- orchestrator, and Control calls the functions of Alerts, Decision, Failover and Mitre as the
-- source calls those objects. What it writes to the audit log is kept as a list of calls.
-- Control.Server.Telemetry opens what a connection brings with the receiver of Channel and hands
-- the payload to the engine; the decoding of its text is an argument.
--
-- Bounds and fuel: the loops of the key derivation and of the keystream get one round more than the
-- bytes that are wanted, and each round adds a digest. A playbook's recursion gets one more than
-- the attempts that all playbooks have left, and each call of it takes an attempt. The
-- breadth-first search gets two rounds more than the graph has edge entries: a round takes one
-- asset from the queue, and an asset that is queued uses up an entry. The evaluator's parser gets eight calls
-- for each token and eight more; every loop of calls takes a token. Reading n bytes from a
-- connection gets n + 1 rounds, and each piece that arrives has a byte. A path gets one round more
-- than the asset's distance. Counters on the wire have eight bytes and lengths four, big-endian.
-- Times are natural numbers of a clock that does not go back within the expressions that subtract
-- them; scores of the decision engine are integers.
--
-- Not modelled: sockets and HTTP, threads as such (a lock's section is one step), files and the
-- environment, telemetry whose values have wrong types, the hypervisors' backends, the stand-alone
-- tools of blue_team, exports, the command line, and floats that are only shown (backoff with jitter,
-- recovery times, rates).
pub mod Alerts
pub mod Audit
pub mod Blast
pub mod Channel
pub mod Containment
pub mod Control
pub mod Decision
pub mod Failover
pub mod Firewall
pub mod Healing
pub mod KillChain
pub mod Mitre
pub mod Prelude
pub mod SafeEval
