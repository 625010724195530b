-- ===== src/Mitre.antt =====
-- common/mitre_attack.py: the catalogue of ATT&CK techniques, and the techniques that an event maps to.
-- A technique's description, which no code reads, is left out.
pub mod Coverage
mod Tests
use ganglion_oob.Prelude.{
  ℕ, String, Option, none, some, Bool, true, false, not, ◌||◌, List, [], ◌∷◌, str_eq, if◌then◌else◌,
}
use ganglion_oob.Prelude.Dict.{Dict, lookup}

pub record Technique : Type 0 where
  pub tid : String
  pub name : String
  pub tactics : List String

-- `TACTICS`
unfoldable pub tactics : Dict String
tactics =
    ("TA0001", "Initial Access")
    ∷ ("TA0002", "Execution")
    ∷ ("TA0003", "Persistence")
    ∷ ("TA0004", "Privilege Escalation")
    ∷ ("TA0005", "Defense Evasion")
    ∷ ("TA0006", "Credential Access")
    ∷ ("TA0007", "Discovery")
    ∷ ("TA0008", "Lateral Movement")
    ∷ ("TA0009", "Collection")
    ∷ ("TA0011", "Command and Control")
    ∷ ("TA0010", "Exfiltration")
    ∷ ("TA0040", "Impact")
    ∷ ("TA0043", "Reconnaissance")
    ∷ []

abbrev technique : String → String → String → String × Technique
technique tid name tactic = (tid, record { tid = tid; name = name; tactics = tactic ∷ [] })

-- `TECHNIQUES`
unfoldable pub techniques : Dict Technique
techniques =
    technique "T1486" "Data Encrypted for Impact" "TA0040"
    ∷ technique "T1490" "Inhibit System Recovery" "TA0040"
    ∷ technique "T1059" "Command and Scripting Interpreter" "TA0002"
    ∷ technique "T1505.003" "Web Shell" "TA0003"
    ∷ technique "T1036.005" "Masquerading: Match Legitimate Name or Location" "TA0005"
    ∷ technique "T1071" "Application Layer Protocol" "TA0011"
    ∷ technique "T1571" "Non-Standard Port" "TA0011"
    ∷ technique "T1496" "Resource Hijacking" "TA0040"
    ∷ technique "T1562.001" "Impair Defenses: Disable or Modify Tools" "TA0005"
    ∷ technique "T1021" "Remote Services" "TA0008"
    ∷ technique "T1110" "Brute Force" "TA0006"
    ∷ technique "T1003.001" "OS Credential Dumping: LSASS Memory" "TA0006"
    ∷ technique "T1059.001" "Command and Scripting Interpreter: PowerShell" "TA0002"
    ∷ technique "T1027" "Obfuscated Files or Information" "TA0005"
    ∷ technique "T1219" "Remote Access Software" "TA0011"
    ∷ technique "T1567.002" "Exfiltration to Cloud Storage" "TA0010"
    ∷ technique "T1053" "Scheduled Task/Job" "TA0003"
    ∷ technique "T1546.003" "Event Triggered Execution: WMI Subscription" "TA0003"
    ∷ technique "T1218" "System Binary Proxy Execution (LOLBin)" "TA0005"
    ∷ technique "T1560" "Archive Collected Data" "TA0009"
    ∷ technique "T1558.003" "Steal or Forge Kerberos Tickets: Kerberoasting" "TA0006"
    ∷ technique "T1078.004" "Valid Accounts: Cloud Accounts" "TA0005"
    ∷ technique "T1621" "Multi-Factor Authentication Request Generation" "TA0006"
    ∷ technique "T1068" "Exploitation for Privilege Escalation (BYOVD)" "TA0004"
    ∷ technique "T1136" "Create Account" "TA0003"
    ∷ technique "T1190" "Exploit Public-Facing Application" "TA0001"
    ∷ technique "T1046" "Network Service Discovery" "TA0007"
    ∷ technique "T1595" "Active Scanning" "TA0043"
    ∷ []

-- `_EVENT_MAP`
unfoldable pub event_map : Dict (List String)
event_map =
    ("crypto_spike", "T1486" ∷ "T1496" ∷ [])
    ∷ ("entropy", "T1486" ∷ [])
    ∷ ("velocity", "T1486" ∷ [])
    ∷ ("shadow", "T1490" ∷ [])
    ∷ ("network", "T1071" ∷ "T1571" ∷ [])
    ∷ ("agent_silence", "T1562.001" ∷ [])
    ∷ ("rmm_tool", "T1219" ∷ [])
    ∷ ("cloud_exfil", "T1567.002" ∷ [])
    ∷ ("lolbin", "T1218" ∷ [])
    ∷ ("staging", "T1560" ∷ [])
    ∷ ("driver_load", "T1068" ∷ [])
    ∷ ("cloud_auth", "T1078.004" ∷ [])
    ∷ ("ransomware_esxi", "T1486" ∷ [])
    ∷ ("cred_dump", "T1003.001" ∷ [])
    ∷ []

-- `_PROCESS_REASON_MAP`
unfoldable pub process_reason_map : Dict (List String)
process_reason_map =
    ("web_server_spawned_shell", "T1505.003" ∷ "T1059" ∷ [])
    ∷ ("suspicious_exec_path", "T1036.005" ∷ "T1059" ∷ [])
    ∷ []

-- `_REASON_MAP`
unfoldable pub reason_map : Dict (List String)
reason_map =
    ("lsass_dump", "T1003.001" ∷ [])
    ∷ ("kerberoast", "T1558.003" ∷ [])
    ∷ ("mfa_fatigue", "T1621" ∷ [])
    ∷ ("encoded_command", "T1059.001" ∷ "T1027" ∷ [])
    ∷ ("obfuscated", "T1027" ∷ [])
    ∷ ("scheduled_task", "T1053" ∷ [])
    ∷ ("wmi_subscription", "T1546.003" ∷ [])
    ∷ ("new_account", "T1136" ∷ [])
    ∷ []

-- `d.get(k, default)`
unfoldable pub ids_or : List String → Option (List String) → List String
ids_or default none = default
ids_or default (some ids) = ids

unfoldable pub is_listed : Option (List String) → Bool
is_listed none = false
is_listed (some _) = true

-- The ids of an event type and of `details.get("reason", "")`.
unfoldable pub technique_ids : String → String → List String
unfolding ids_or is_listed event_map process_reason_map reason_map
technique_ids event_type reason =
    let by_reason = lookup reason reason_map in
    if str_eq event_type "process"
    then ids_or ("T1059" ∷ []) (lookup reason process_reason_map)
    else if str_eq event_type "cred_access"
        || str_eq event_type "persistence"
        || str_eq event_type "powershell"
        || is_listed by_reason
    then ids_or [] by_reason
    else ids_or [] (lookup event_type event_map)

-- `[TECHNIQUES[t] for t in tids if t in TECHNIQUES]`
unfoldable pub known : List String → List Technique
known [] = []
known (t ∷ ts) =
    let rest = known ts in elim (lookup t techniques) [ none ↦ rest | some x ↦ x ∷ rest ]

unfoldable pub map_event_to_techniques : String → String → List Technique
map_event_to_techniques event_type reason = known (technique_ids event_type reason)
