-- ===== src/Report/Data.antt =====
-- internal/report/markdown.go: LoadReportData, with the two timelines. It leaves the observations and
-- the root cause of a report out.
pub mod Own
use microservice_diagnosis.Prelude.{
  String, Bool, Option, none, some, List, [], ◌∷◌, ◌++◌, map, filter, leb, sort_by, ◌==◌,
  if◌then◌else◌,
}
use microservice_diagnosis.Store.Rows.{
  Uuid, Time, Status, is_status, TriggerType, ApprovalStatus, FixAction, Approval, SessionEvent,
  DiagnosticSession,
}
use microservice_diagnosis.Store.World.{World, Env, M, Result, ok, err, pure, try, ◌>>=◌, query}
use microservice_diagnosis.Agent.Observation.{Confidence}
use microservice_diagnosis.Store.SessionDao
use microservice_diagnosis.Store.FixActionDao
use microservice_diagnosis.Store.SessionEventDao

-- An event of the report's timeline, by its type; its message is a text of what it carries.
pub data ReportEvent : Type 0 where
  recorded : SessionEvent → ReportEvent
  session_created : String → TriggerType → Time → ReportEvent
  session_started : Status → Time → ReportEvent
  approval : Approval → Time → ReportEvent
  session_resolved : Time → ReportEvent

pub record ObservationEntry : Type 0 where
  pub id : Uuid
  pub type_name : String
  pub sub_type : String
  pub severity : String
  pub target_service : String
  pub confidence : Confidence
  pub message : String
  pub labels : List (String × String)

pub record RootCauseSummary : Type 0 where
  pub pattern_name : String
  pub description : String
  pub confidence : Confidence
  pub evidence_ids : List String

pub record ReportData : Type 0 where
  pub session : DiagnosticSession
  pub timeline : List ReportEvent
  pub observations : List ObservationEntry
  pub root_cause : Option RootCauseSummary
  pub fix_actions : List FixAction
  pub approval_logs : List Approval

abbrev pub approval_in : Uuid → Approval → Bool
approval_in id a = a.session_id == id

-- ORDER BY requested_at.
abbrev pub order_approvals : List Approval → List Approval
order_approvals approvals = sort_by (λ a b. leb a.requested_at b.requested_at) approvals

unfoldable pub get_all_approvals_for_session : Env → Uuid → M (List Approval)
get_all_approvals_for_session env id =
    query env (λ w. order_approvals (filter (approval_in id) w.approvals))

abbrev or_requested : Approval → Option Time → Time
or_requested a none = a.requested_at
or_requested a (some t) = t

abbrev pub approval_event : Approval → ReportEvent
approval_event a = approval a (or_requested a a.decided_at)

abbrev pub start_of : DiagnosticSession → List ReportEvent
start_of s =
    if is_status Status.created s.status then [] else session_started s.status s.updated_at ∷ []

abbrev pub end_of : DiagnosticSession → List ReportEvent
end_of s = if is_status Status.resolved s.status then session_resolved s.updated_at ∷ [] else []

abbrev pub build_timeline_from_session : DiagnosticSession → List Approval → List ReportEvent
build_timeline_from_session s approvals =
    session_created s.target_service s.trigger_type s.created_at
    ∷ (start_of s ++ (map approval_event approvals ++ end_of s))

-- The error of a query that is discarded leaves no rows.
abbrev pub or_none : {A : Type 0} → Result (List A) → List A
or_none (ok rows) = rows
or_none (err x) = []

abbrev pub timeline_of : DiagnosticSession → List Approval → List SessionEvent → List ReportEvent
timeline_of s approvals [] = build_timeline_from_session s approvals
timeline_of s approvals (e ∷ es) = map recorded (e ∷ es)

-- `LoadReportData`.
unfoldable pub load_report_data : Env → Uuid → M ReportData
load_report_data env id = do
  s ← SessionDao.get_by_id env id
  fixes ← try (FixActionDao.get_by_session_id env id)
  approvals ← try (get_all_approvals_for_session env id)
  events ← try (SessionEventDao.get_by_session_id env id)
  pure (record {
    session = s;
    timeline = timeline_of s (or_none approvals) (or_none events);
    observations = [];
    root_cause = none;
    fix_actions = or_none fixes;
    approval_logs = or_none approvals;
  })
