-- ===== src/Alerts/Queue.antt =====
-- host_control_plane/alert_manager.py: the state of `AlertManager` and its operations.
use Prim.Native.String.{◌++◌ as ◌+++◌}
use ganglion_oob.Prelude.{
  ℕ, ◌+◌, ◌-◌, ◌==◌, String, Option, none, some, Bool, true, false, List, [], ◌∷◌, ◌++◌, length,
  drop, ltb, if◌then◌else◌, str_eq,
}
use ganglion_oob.Prelude.Dict.{Dict, lookup, insert}

pub data AlertStatus : Type 0 where
  opened acknowledged escalated closed false_positive : AlertStatus

-- A line of an alert's history, and a note, without their time.
pub record HistoryEntry : Type 0 where
  pub action : String
  pub by : String
  pub extra : String

pub record Note : Type 0 where
  pub by : String
  pub text : String

pub record Alert : Type 0 where
  pub alert_id : ℕ
  pub vm_id : String
  pub title : String
  pub severity : String
  pub event_type : String
  pub techniques : List String
  pub created_ts : ℕ
  pub detection_latency : Option ℕ
  pub status : AlertStatus
  pub assignee : Option String
  pub notes : List Note
  pub history : List HistoryEntry

pub record AlertManager : Type 0 where
  pub alerts : List Alert
  pub seq : ℕ
  pub dedupe : Dict ℕ
  pub dedupe_window : ℕ
  -- At most 4096 creation times, the oldest first.
  pub volume : List ℕ
  pub latencies : List ℕ

abbrev pub new_manager : ℕ → AlertManager
new_manager window = record {
  alerts = [];
  seq = 0;
  dedupe = [];
  dedupe_window = window;
  volume = [];
  latencies = [];
}

-- What is reported: the details' attack list and reason, and the event's time, when it is given and
-- can be read.
pub record Report : Type 0 where
  pub vm_id : String
  pub event_type : String
  pub severity : String
  pub delta : ℕ
  pub attack : List String
  pub reason : String
  pub event_ts : Option ℕ
  -- `delta` in digits
  pub delta_text : String

abbrev pub alert_min_delta : ℕ
alert_min_delta = 15

-- `_title_for`
unfoldable pub title_for : String → String → String
title_for event_type reason =
    if str_eq event_type "process"
    then (if str_eq reason "web_server_spawned_shell"
        then "Web server spawned a shell (web shell / RCE)"
        else "Execution from suspicious path")
    else if str_eq event_type "crypto_spike"
    then "Ransomware cryptographic spike"
    else if str_eq event_type "entropy"
    then "High-entropy file encryption"
    else if str_eq event_type "shadow"
    then "Backup / shadow-copy destruction"
    else if str_eq event_type "velocity"
    then "File-modification velocity spike"
    else if str_eq event_type "network"
    then "Suspicious outbound connection (possible C2)"
    else if str_eq event_type "agent_silence"
    then "Security agent silenced (possible tamper)"
    else event_type +++ " event"

abbrev pub dedupe_key : String → String → String
dedupe_key vm_id event_type = vm_id +++ "|" +++ event_type

-- A deque of at most 4096.
unfoldable pub push_volume : ℕ → List ℕ → List ℕ
push_volume t v = drop (length (v ++ t ∷ []) - 4096) (v ++ t ∷ [])

-- `now - last < window`, where a missing time is 0
unfoldable pub is_repeat : ℕ → ℕ → Option ℕ → Bool
is_repeat window now none = ltb now window
is_repeat window now (some last) = ltb now (last + window)

abbrev pub latency_of : ℕ → Option ℕ → Option ℕ
latency_of now none = none
latency_of now (some t) = some (now - t)

abbrev pub new_alert : ℕ → Report → ℕ → Alert
new_alert now r n = record {
  alert_id = n;
  vm_id = r.vm_id;
  title = title_for r.event_type r.reason;
  severity = r.severity;
  event_type = r.event_type;
  techniques = r.attack;
  created_ts = now;
  detection_latency = latency_of now r.event_ts;
  status = opened;
  assignee = none;
  notes = [];
  history = record { action = "raised"; by = "system"; extra = "score +" +++ r.delta_text } ∷ [];
}

abbrev pub add_alert : ℕ → Report → AlertManager → AlertManager
add_alert now r m = record m {
  alerts = m.alerts ++ new_alert now r (m.seq + 1) ∷ [];
  seq = m.seq + 1;
  dedupe = insert (dedupe_key r.vm_id r.event_type) now m.dedupe;
  volume = push_volume now m.volume;
  latencies = elim (latency_of now r.event_ts) [
    | none ↦ m.latencies
    | some l ↦ m.latencies ++ l ∷ []
  ];
}

unfoldable pub raise_alert : ℕ → Report → AlertManager → AlertManager × Option Alert
raise_alert now r m =
    if ltb r.delta alert_min_delta
    then (m, none)
    else if is_repeat m.dedupe_window now (lookup (dedupe_key r.vm_id r.event_type) m.dedupe)
    then (m, none)
    else (add_alert now r m, some (new_alert now r (m.seq + 1)))

-- `_get`
unfoldable pub get_alert : ℕ → List Alert → Option Alert
get_alert n [] = none
get_alert n (a ∷ xs) = if a.alert_id == n then some a else get_alert n xs

-- The alert object with this id is changed in place.
unfoldable pub change : ℕ → (Alert → Alert) → List Alert → List Alert
change n f [] = []
change n f (a ∷ xs) = (if a.alert_id == n then f a else a) ∷ change n f xs

-- What an analyst does to an alert, and who does it.
pub data AnalystAction : Type 0 where
  acknowledge : String → AnalystAction
  assign : String → String → AnalystAction
  escalate : String → AnalystAction
  close : String → String → AnalystAction
  mark_false_positive : String → String → AnalystAction
  -- with the first 60 characters of the text
  add_note : String → String → String → AnalystAction

abbrev pub log : String → String → String → Alert → Alert
log action by extra a = record a {
  history = a.history ++ record { action = action; by = by; extra = extra } ∷ [];
}

abbrev pub note : String → String → Alert → Alert
note text by a = record a { notes = a.notes ++ record { by = by; text = text } ∷ [] }

abbrev pub is_empty_text : String → Bool
is_empty_text t = str_eq t ""

abbrev pub note_if_any : String → String → Alert → Alert
note_if_any text by a = if is_empty_text text then a else note text by a

abbrev pub status_assigned : AlertStatus → AlertStatus
status_assigned opened = acknowledged
status_assigned s = s

-- The bodies of the analyst's methods, once the alert is found.
unfoldable pub act : AnalystAction → Alert → Alert
act (acknowledge by) a = log "acknowledged" by "" (record a { status = acknowledged })
act (assign assignee by) a =
    log "assigned" by assignee
      (record a { assignee = some assignee; status = status_assigned a.status })
act (escalate by) a = log "escalated" by "" (record a { status = escalated })
act (close by text) a = log "closed" by text (note_if_any text by (record a { status = closed }))
act (mark_false_positive by text) a =
    log "false_positive" by text (note_if_any text by (record a { status = false_positive }))
act (add_note text by short) a = log "note" by short (note text by a)

-- An analyst's method on an id; the answer says whether the alert was found.
unfoldable pub work : ℕ → AnalystAction → AlertManager → AlertManager × Bool
work n w m = elim (get_alert n m.alerts) [
  | none ↦ (m, false)
  | some a ↦ (record m { alerts = change n (act w) m.alerts }, true)
]

-- What happens to the queue.
pub data Step : AlertManager → AlertManager → Type 0 where
  raises : {m : AlertManager} (now : ℕ) (r : Report) → Step m (raise_alert now r m).0
  works : {m : AlertManager} (n : ℕ) (w : AnalystAction) → Step m (work n w m).0

pub data Reach (m : AlertManager) : AlertManager → Type 0 where
  here : Reach m m
  next : {m' m'' : AlertManager} → Reach m m' → Step m' m'' → Reach m m''
