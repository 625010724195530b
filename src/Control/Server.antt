-- ===== src/Control/Server.antt =====
-- host_control_plane/control_center.py: the guard of the HTTP routes and what each route does to the
-- engine. Which route a path belongs to is Flask's part: a request comes with its route.
pub mod Access
pub mod Wire
pub mod Telemetry
pub mod Worker
mod Tests
use Prim.Native.Char.{code}
use Prim.Native.String.{◌++◌ as ◌+++◌}
use ganglion_oob.Prelude.{
  ℕ, ◌==◌, String, Option, none, some, Bool, true, false, not, ◌&&◌, ◌||◌, List, [], ◌∷◌, str_eq,
  if◌then◌else◌,
}
use ganglion_oob.Prelude.Text.{starts_with}
use ganglion_oob.Alerts.Queue.{
  AnalystAction, acknowledge, assign, escalate, close, mark_false_positive, add_note, work,
}
use ganglion_oob.Control.Engine.{Engine, get_or, get_all_vm_states}
use ganglion_oob.Control.Isolation.{abort_and_restore}

pub data Route : Type 0 where
  dashboard status stix attack_layer audit healthz : Route
  alert_action : ℕ → String → Route
  isolate restore : String → Route

-- What is read of a request, the fields of its body included; `short` is the first 60 characters of
-- `text`.
pub record Request : Type 0 where
  pub remote_addr : String
  pub method : String
  pub route : Route
  pub token : Option String
  pub authorization : Option String
  pub by : Option String
  pub assignee : Option String
  pub note : Option String
  pub text : Option String
  pub short : String

-- `_is_protected`
unfoldable pub is_protected : String → String → Bool
unfolding starts_with
is_protected path method =
    (str_eq method "POST" || str_eq method "PUT" || str_eq method "DELETE" || str_eq method "PATCH")
    && (starts_with "/api/isolate" path
        || starts_with "/api/restore" path
        || starts_with "/api/alerts/" path)

unfoldable pub is_local : String → Bool
is_local addr = str_eq addr "127.0.0.1" || str_eq addr "::1" || str_eq addr "localhost"

unfoldable pub is_listed : String → List String → Bool
is_listed addr [] = false
is_listed addr (a ∷ l) = str_eq addr a || is_listed addr l

-- `allowed_ips is not None and remote_addr not in allowed_ips`
abbrev pub is_blocked : Option (List String) → String → Bool
is_blocked none addr = false
is_blocked (some l) addr = not (is_listed addr l)

pub data Answer : Type 0 where
  passed forbidden unauthorized : Answer

-- What a served request leaves: the engine, a machine for which a thread starts an isolation, and how
-- the guard answered.
pub record Served : Type 0 where
  pub engine : Engine
  pub isolation : Option String
  pub answer : Answer

-- `show` prints an alert's number as its id, and `bearer` removes "Bearer " and the outer blanks.
module _ (show : ℕ → String) (bearer : String → String) where
  unfoldable pub path_of : Route → String
  path_of dashboard = "/"
  path_of status = "/api/status"
  path_of stix = "/api/stix"
  path_of attack_layer = "/api/attack-layer"
  path_of audit = "/api/audit"
  path_of healthz = "/healthz"
  path_of (alert_action n action) = "/api/alerts/" +++ (show n +++ ("/" +++ action))
  path_of (isolate vm_id) = "/api/isolate/" +++ vm_id
  path_of (restore vm_id) = "/api/restore/" +++ vm_id

  -- An empty header counts as missing.
  unfoldable pub supplied : Request → String
  supplied r =
      let other = bearer (get_or "" r.authorization) in
      elim r.token [ none ↦ other | some t ↦ if str_eq t "" then other else t ]

  -- `_guard`
  unfoldable pub guard : Option (List String) → String → Request → Answer
  unfolding is_protected is_local supplied path_of
  guard allowed_ips api_token r =
      if is_blocked allowed_ips r.remote_addr
      then forbidden
      else if is_protected (path_of r.route) r.method
          && not (is_local r.remote_addr)
          && (str_eq (supplied r) "" || not (str_eq (supplied r) api_token))
      then unauthorized
      else passed

-- The action of an alert's route; another name is an error and changes nothing.
unfoldable pub analyst_action : String → Request → Option AnalystAction
analyst_action action r =
    let by = get_or "analyst" r.by in
    if str_eq action "ack"
    then some (acknowledge by)
    else if str_eq action "assign"
    then some (assign (get_or "tier1" r.assignee) by)
    else if str_eq action "escalate"
    then some (escalate by)
    else if str_eq action "close"
    then some (close by (get_or "" r.note))
    else if str_eq action "false_positive"
    then some (mark_false_positive by (get_or "" r.note))
    else if str_eq action "note"
    then some (add_note by (get_or "" r.text) r.short)
    else none

abbrev pub unchanged : Engine → Served
unchanged e = record { engine = e; isolation = none; answer = passed }

-- The routes' functions. Those of three routes take POST, the others GET; any other method is an
-- error of Flask's. The status asks for the states of all machines, which brings the scores up to date.
unfoldable pub handle : ℕ → Request → Route → Engine → Served
unfolding analyst_action
handle now r status e =
    if str_eq r.method "GET" || str_eq r.method "HEAD"
    then unchanged (get_all_vm_states now e)
    else unchanged e
handle now r (alert_action n action) e =
    if str_eq r.method "POST"
    then elim (analyst_action action r) [
      | none ↦ unchanged e
      | some w ↦ unchanged (record e { alerts = (work n w e.alerts).0 })
    ]
    else unchanged e
handle now r (isolate vm_id) e =
    if str_eq r.method "POST" then record (unchanged e) { isolation = some vm_id } else unchanged e
handle now r (restore vm_id) e =
    if str_eq r.method "POST" then unchanged (abort_and_restore vm_id e) else unchanged e
handle now r _ e = unchanged e

unfoldable pub serve :
    (ℕ → String) → (String → String) → Option (List String) → String → ℕ → Request → Engine → Served
unfolding guard handle
serve show bearer allowed_ips api_token now r e = elim (guard show bearer allowed_ips api_token r) [
  | passed ↦ handle now r r.route e
  | refused ↦ record { engine = e; isolation = none; answer = refused }
]
