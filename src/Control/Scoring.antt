-- ===== src/Control/Scoring.antt =====
-- host_control_plane/control_center.py: the score of an event, and the state of a virtual machine
-- with its rolling window. Times are in milliseconds.
use ganglion_oob.Prelude.{
  ℕ, ◌+◌, ◌-◌, String, Option, none, some, Bool, false, ◌&&◌, List, [], ◌∷◌, ◌++◌, length, drop,
  min, ltb, leb, str_eq, if◌then◌else◌,
}
use ganglion_oob.Prelude.Dict.{Dict, lookup}
use ganglion_oob.Decision.{Decision}

-- `SCORE_WEIGHTS`
abbrev pub score_weights : Dict ℕ
score_weights =
    ("crypto_spike", 50)
    ∷ ("entropy", 40)
    ∷ ("shadow", 40)
    ∷ ("process", 40)
    ∷ ("shell", 30)
    ∷ ("agent_silence", 25)
    ∷ ("velocity", 20)
    ∷ ("network", 15)
    ∷ ("heartbeat", 0)
    ∷ ("cred_dump", 50)
    ∷ ("driver_load", 45)
    ∷ ("cloud_exfil", 45)
    ∷ ("ransomware_esxi", 50)
    ∷ ("kerberoast", 35)
    ∷ ("rmm_tool", 30)
    ∷ ("powershell", 30)
    ∷ ("lolbin", 30)
    ∷ ("staging", 25)
    ∷ ("persistence", 25)
    ∷ ("mfa_fatigue", 25)
    ∷ ("cloud_auth", 20)
    ∷ []

abbrev pub isolation_threshold : ℕ
isolation_threshold = 100

abbrev pub rolling_window : ℕ
rolling_window = 60000

abbrev pub max_events_per_vm : ℕ
max_events_per_vm = 500

-- `SCORE_WEIGHTS.get(k, 0)`; the keys that are read with brackets are there.
unfoldable pub weight_of : String → ℕ
weight_of k = elim (lookup k score_weights) [ none ↦ 0 | some w ↦ w ]

-- `_resolve_delta`; of the details only the reason is read, and a missing one is like the empty one.
unfoldable pub resolve_delta : String → String → ℕ
unfolding weight_of
resolve_delta event_type reason =
    if str_eq event_type "process"
    then (if str_eq reason "web_server_spawned_shell"
        then weight_of "shell"
        else weight_of "process")
    else if str_eq event_type "cred_dump" && str_eq reason "kerberoast"
    then weight_of "kerberoast"
    else weight_of event_type

-- What no operation reads again, the details and the raw event, is left out.
pub record ScoredEvent : Type 0 where
  pub timestamp : ℕ
  pub event_type : String
  pub severity : String
  pub score_delta : ℕ

pub data Status : Type 0 where
  secure warning critical isolated quarantine_unenforced : Status

-- A line of the incident-response log, without its time and message.
pub record IrEntry : Type 0 where
  pub operation : String
  pub success : Bool

-- The text of `isolation_detail` is left out.
pub record VmState : Type 0 where
  pub vm_id : String
  pub threat_score : ℕ
  pub status : Status
  pub isolated : Bool
  pub isolation_enforced : Bool
  pub silent : Bool
  pub last_seen : ℕ
  pub last_hb_interval : ℕ
  pub last_agent_seq : ℕ
  pub events : List ScoredEvent
  pub scored_events : List ScoredEvent
  pub ir_log : List IrEntry
  pub heartbeat_count : ℕ
  pub last_decision : Option Decision

abbrev pub new_vm : String → VmState
new_vm vm_id = record {
  vm_id = vm_id;
  threat_score = 0;
  status = Status.secure;
  isolated = false;
  isolation_enforced = false;
  silent = false;
  last_seen = 0;
  last_hb_interval = 15000;
  last_agent_seq = 0;
  events = [];
  scored_events = [];
  ir_log = [];
  heartbeat_count = 0;
  last_decision = none;
}

-- `append` to a `deque(maxlen=500)`
unfoldable pub push_event : ScoredEvent → List ScoredEvent → List ScoredEvent
push_event e l = drop (length (l ++ e ∷ []) - max_events_per_vm) (l ++ e ∷ [])

-- The loop of `purge_expired`: events older than the window leave at the left end.
unfoldable pub purge_from : ℕ → List ScoredEvent → List ScoredEvent
purge_from now [] = []
purge_from now (e ∷ l) =
    let rest = purge_from now l in if ltb (e.timestamp + rolling_window) now then rest else e ∷ l

unfoldable pub purge_expired : ℕ → VmState → VmState
purge_expired now vm = record vm { scored_events = purge_from now vm.scored_events }

unfoldable pub sum_deltas : List ScoredEvent → ℕ
sum_deltas [] = 0
sum_deltas (e ∷ l) = e.score_delta + sum_deltas l

-- The status that goes with a score.
unfoldable pub status_for : Bool → Bool → ℕ → Status
status_for is_isolated enforced score =
    if is_isolated
    then (if enforced then Status.isolated else Status.quarantine_unenforced)
    else if leb isolation_threshold score
    then Status.critical
    else if leb 50 score
    then Status.warning
    else Status.secure

-- `recalculate_score`, whose result is the field `threat_score`.
unfoldable pub recalculate_score : ℕ → VmState → VmState
unfolding purge_expired sum_deltas status_for
recalculate_score now vm =
    let purged = purge_expired now vm in
    let score = min (sum_deltas purged.scored_events) 200 in
    record purged {
      threat_score = score;
      status = status_for vm.isolated vm.isolation_enforced score;
    }
