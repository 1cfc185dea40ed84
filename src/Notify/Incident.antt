-- ===== src/Notify/Incident.antt =====
-- internal/notify/notify.go: the incident notifiers, which are stubs of the services: they answer
-- with a ticket id of their own and send nothing.
pub mod Tickets
use microservice_diagnosis.Prelude.{
  ℕ, zero, suc, ◌%◌, String, ◌<>◌, pos, format_int, str_eq, if◌then◌else◌,
}

-- `Incident`, with its ids in their text form.
pub record Incident : Type 0 where
  pub id : String
  pub session_id : String
  pub summary : String
  pub description : String
  pub severity : String
  pub status : String
  pub report_url : String

pub data IncidentNotifier : Type 0 where
  noop : IncidentNotifier
  -- The base URL, the token and the project key.
  jira : String → String → String → IncidentNotifier
  -- The routing key.
  pager_duty : String → IncidentNotifier

-- `s[:n]` of an ASCII text that is at least as long.
unfoldable pub first_chars : ℕ → String → String
first_chars zero s = ""
first_chars (suc n) String.[] = ""
first_chars (suc n) (String.◌∷◌ c s) = String.◌∷◌ c (first_chars n s)

-- `CreateIncident` of the three, at a Unix time.
unfoldable pub create_incident : IncidentNotifier → ℕ → Incident → String
create_incident noop unix i = "NOOP-" <> first_chars 8 i.session_id
create_incident (jira url token key) unix i = key <> ("-" <> format_int (pos (unix % 10000)))
create_incident (pager_duty key) unix i = "PD-" <> first_chars 8 i.session_id

unfoldable pub severity_to_jira_priority : String → String
severity_to_jira_priority severity =
    if str_eq severity "CRITICAL"
    then "Highest"
    else if str_eq severity "HIGH"
    then "High"
    else if str_eq severity "MEDIUM"
    then "Medium"
    else "Low"

unfoldable pub severity_to_pd_severity : String → String
severity_to_pd_severity severity =
    if str_eq severity "CRITICAL"
    then "critical"
    else if str_eq severity "HIGH"
    then "critical"
    else if str_eq severity "MEDIUM"
    then "error"
    else "warning"
