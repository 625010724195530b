-- ===== src/Control/Engine.antt =====
-- host_control_plane/control_center.py: the state of `CorrelationEngine`, `process_batch`, the watchdog
-- and the dashboard's query. Each runs under the engine's lock, and reads the clock once here.
use ganglion_oob.Prelude.{
  ℕ, ◌+◌, ◌-◌, ◌*◌, String, Option, none, some, Bool, true, false, not, ◌&&◌, ◌||◌, List, [], ◌∷◌,
  ◌++◌, map, length, drop, ltb, leb, str_eq, if◌then◌else◌,
}
use ganglion_oob.Prelude.Dict.{Dict, lookup, insert}
use ganglion_oob.Decision.{Verdict, Fact, decide, verdict_eq}
use ganglion_oob.Decision.Policy.{default_engine}
use ganglion_oob.Alerts.Queue.{AlertManager, Report, raise_alert}
use ganglion_oob.Failover.Types.{Orchestrator}
use ganglion_oob.Mitre.{map_event_to_techniques}
use ganglion_oob.Control.VmId.{safe_vm_id}
use ganglion_oob.Control.Scoring.{
  ScoredEvent, VmState, new_vm, push_event, resolve_delta, recalculate_score, isolation_threshold,
}

-- An event as an agent sends it, with what is read of its details: the reason, a missing one being
-- the empty one, the heartbeat's numbers and the destination. The values have the right types; one
-- that has not makes `process_batch` raise half way, which is left out.
pub record RawEvent : Type 0 where
  pub event_type : Option String
  pub severity : Option String
  pub reason : String
  pub interval : Option ℕ
  pub agent_seq : Option ℕ
  pub dest_ip : Option String
  pub timestamp : Option ℕ

-- A call of `audit.record`.
pub record AuditCall : Type 0 where
  pub verdict : Verdict
  pub vm_id : String
  pub score : ℕ
  pub top_severity : String
  pub techniques : List String

-- The set of seen techniques is kept in the order of discovery. An entry of the map of destinations
-- is the machine and the address, without what geo_intel.py adds.
pub record Engine : Type 0 where
  pub vms : Dict VmState
  pub isolation_queue : List String
  pub block_queue : List String
  pub failover_count : ℕ
  pub seen_techniques : List String
  pub alerts : AlertManager
  pub geo_events : List (String × String)
  pub failover : Orchestrator
  pub last_logged_verdict : Dict Verdict
  pub audit : List AuditCall

abbrev pub get_or : {A : Type 0} → A → Option A → A
get_or default none = default
get_or default (some x) = x

-- `self._vms[vm_id]` after `get_or_create_vm`
unfoldable pub vm_of : String → Engine → VmState
vm_of vm_id e = get_or (new_vm vm_id) (lookup vm_id e.vms)

abbrev pub put_vm : String → VmState → Engine → Engine
put_vm vm_id vm e = record e { vms = insert vm_id vm e.vms }

-- `set.add`
unfoldable pub add_seen : String → List String → List String
add_seen t [] = t ∷ []
add_seen t (x ∷ xs) = let rest = x ∷ add_seen t xs in if str_eq x t then x ∷ xs else rest

unfoldable pub add_all_seen : List String → List String → List String
add_all_seen [] seen = seen
add_all_seen (t ∷ ts) seen = add_all_seen ts (add_seen t seen)

-- `et in INSTANT_BLOCK_TYPES`
unfoldable pub is_instant_block : String → Bool
is_instant_block t = str_eq t "crypto_spike" || str_eq t "cred_dump" || str_eq t "ransomware_esxi"

unfoldable pub heartbeat : RawEvent → VmState → VmState
heartbeat raw vm = record vm {
  heartbeat_count = vm.heartbeat_count + 1;
  last_hb_interval = get_or vm.last_hb_interval raw.interval;
  last_agent_seq = get_or vm.last_agent_seq raw.agent_seq;
}

-- A `deque(maxlen=200)`; a missing or empty address adds nothing.
unfoldable pub push_geo : String → Option String → List (String × String) → List (String × String)
push_geo vm_id none geo = geo
push_geo vm_id (some ip) geo =
    if str_eq ip ""
    then geo
    else drop (length (geo ++ (vm_id, ip) ∷ []) - 200) (geo ++ (vm_id, ip) ∷ [])

-- `digits` is how Python prints a number.
module _ (digits : ℕ → String) where
  abbrev pub report : String → RawEvent → String → ℕ → List String → Report
  report vm_id raw et delta attack = record {
    vm_id = vm_id;
    event_type = et;
    severity = get_or "low" raw.severity;
    delta = delta;
    attack = attack;
    reason = raw.reason;
    event_ts = raw.timestamp;
    delta_text = digits delta;
  }

  -- An event that is no heartbeat.
  unfoldable pub score_event : ℕ → String → RawEvent → String → Engine → VmState → Engine × VmState
  unfolding is_instant_block push_geo add_all_seen
  score_event now vm_id raw et e vm =
      let delta = resolve_delta et raw.reason in
      let attack = map (λ t. t.tid) (map_event_to_techniques et raw.reason) in
      let se : ScoredEvent = record {
        timestamp = now;
        event_type = et;
        severity = get_or "low" raw.severity;
        score_delta = delta;
      } in
      (
        record e {
          seen_techniques = add_all_seen attack e.seen_techniques;
          alerts = (raise_alert now (report vm_id raw et delta attack) e.alerts).0;
          geo_events =
              if str_eq et "network" then push_geo vm_id raw.dest_ip e.geo_events else e.geo_events;
          block_queue =
              if is_instant_block et && not vm.isolated
              then e.block_queue ++ vm_id ∷ []
              else e.block_queue;
        },
        record vm {
          scored_events = push_event se vm.scored_events;
          events = push_event se vm.events;
        },
      )

  -- The body of the loop over the batch.
  unfoldable pub process_event : ℕ → String → RawEvent → Engine → VmState → Engine × VmState
  unfolding heartbeat score_event
  process_event now vm_id raw e vm =
      let et = get_or "unknown" raw.event_type in
      if str_eq et "heartbeat" then (e, heartbeat raw vm) else score_event now vm_id raw et e vm

  unfoldable pub process_events : ℕ → String → List RawEvent → Engine → VmState → Engine × VmState
  process_events now vm_id [] e vm = (e, vm)
  process_events now vm_id (raw ∷ rest) e vm =
      let (e', vm') = process_event now vm_id raw e vm in process_events now vm_id rest e' vm'

-- `_rank.get(severity, 0)`
unfoldable pub rank : String → ℕ
rank s =
    if str_eq s "low"
    then 1
    else if str_eq s "medium"
    then 2
    else if str_eq s "high"
    then 3
    else if str_eq s "critical"
    then 4
    else 0

-- `max(recent, key=..., default=None)`: the first of the greatest rank.
unfoldable pub top_event : Option ScoredEvent → List ScoredEvent → Option ScoredEvent
unfolding rank
top_event best [] = best
top_event none (e ∷ l) = top_event (some e) l
top_event (some b) (e ∷ l) =
    top_event (if ltb (rank b.severity) (rank e.severity) then some e else some b) l

-- `list(l)[-n:]`
abbrev pub last_of : {A : Type 0} → ℕ → List A → List A
last_of n l = drop (length l - n) l

-- The orchestrator has no method `has_standby`, so the default of `getattr` answers False.
unfoldable pub fact_of : List String → VmState → Fact
unfolding top_event
fact_of seen vm =
    let top = top_event none (last_of 25 vm.scored_events) in
    record {
      event_type = elim top [ none ↦ "none" | some t ↦ t.event_type ];
      severity = elim top [ none ↦ "low" | some t ↦ t.severity ];
      score = vm.threat_score;
      techniques = seen;
      asset_criticality = "normal";
      has_standby = false;
      reversible = true;
      business_hours = true;
      repeat_offender = false;
      extra = [];
    }

-- `self._last_logged_verdict.get(vm_id) == verdict`
unfoldable pub is_logged : Option Verdict → Verdict → Bool
is_logged none verdict = false
is_logged (some v) verdict = verdict_eq v verdict

-- A verdict is logged when it differs from the machine's last one.
unfoldable pub log_verdict : String → Fact → Verdict → Engine → Engine
unfolding is_logged
log_verdict vm_id f verdict e =
    if is_logged (lookup vm_id e.last_logged_verdict) verdict then e else record e {
      last_logged_verdict = insert vm_id verdict e.last_logged_verdict;
      audit =
          e.audit
          ++ record {
            verdict = verdict;
            vm_id = vm_id;
            score = f.score;
            top_severity = f.severity;
            techniques = f.techniques;
          }
            ∷ [];
    }

-- `score >= ISOLATION_THRESHOLD and not vm.isolated`
unfoldable pub queue_isolation : String → VmState → Engine → Engine
queue_isolation vm_id vm e =
    if leb isolation_threshold vm.threat_score && not vm.isolated
    then record e { isolation_queue = e.isolation_queue ++ vm_id ∷ [] }
    else e

-- The score and the decision, once the batch is taken in.
unfoldable pub respond : ℕ → String → Engine → VmState → Engine
unfolding fact_of log_verdict queue_isolation
respond now vm_id e vm =
    let scored = recalculate_score now vm in
    let f = fact_of e.seen_techniques scored in
    let decision = decide default_engine f in
    put_vm vm_id (record scored { last_decision = some decision })
      (queue_isolation vm_id scored (log_verdict vm_id f decision.verdict e))

unfoldable pub process_batch : (ℕ → String) → ℕ → Option String → List RawEvent → Engine → Engine
unfolding vm_of process_events respond
process_batch digits now raw_id batch e =
    let vm_id = safe_vm_id raw_id in
    let seen = record (vm_of vm_id e) { last_seen = now; silent = false } in
    let (e', vm) = process_events digits now vm_id batch e seen in respond now vm_id e' vm

-- The grace is three heartbeat intervals. A machine that was never seen, is isolated or is flagged
-- already is passed over.
unfoldable pub is_overdue : ℕ → VmState → Bool
is_overdue now vm =
    ltb 0 vm.last_seen
    && not vm.isolated
    && ltb (vm.last_seen + 3 * vm.last_hb_interval) now
    && not vm.silent

abbrev pub silence : ℕ → ScoredEvent
silence now = record {
  timestamp = now;
  event_type = "agent_silence";
  severity = "high";
  score_delta = 25;
}

unfoldable pub flag_silent : ℕ → VmState → VmState
flag_silent now vm = recalculate_score now (record vm {
  silent = true;
  scored_events = push_event (silence now) vm.scored_events;
  events = push_event (silence now) vm.events;
})

-- `watchdog_sweep`: the machines from one on, with the rest of the engine's state.
unfoldable pub sweep : ℕ → Dict VmState → Engine → Dict VmState × Engine
unfolding is_overdue flag_silent queue_isolation
sweep now [] e = ([], e)
sweep now ((k, vm) ∷ vms) e =
    let overdue = is_overdue now vm in
    let vm' = if overdue then flag_silent now vm else vm in
    let e' =
      if overdue
      then queue_isolation vm.vm_id vm'
          (record e { seen_techniques = add_seen "T1562.001" e.seen_techniques })
      else e in
    let (rest, e'') = sweep now vms e' in ((k, vm') ∷ rest, e'')

unfoldable pub watchdog_sweep : ℕ → Engine → Engine
unfolding sweep
watchdog_sweep now e = let (vms, e') = sweep now e.vms e in record e' { vms = vms }

-- `get_all_vm_states` brings every score up to date.
unfoldable pub refresh_all : ℕ → Dict VmState → Dict VmState
refresh_all now [] = []
refresh_all now ((k, vm) ∷ vms) = (k, recalculate_score now vm) ∷ refresh_all now vms

abbrev pub get_all_vm_states : ℕ → Engine → Engine
get_all_vm_states now e = record e { vms = refresh_all now e.vms }
