-- ===== src/Report/Markdown.antt =====
-- internal/report/markdown.go: RenderMarkdown and buildExecutiveSummary. A line or a table row of the
-- text is a constructor with the values that are printed; headings and rules have none.
use microservice_diagnosis.Prelude.{
  ℕ, String, Option, none, some, List, [], ◌∷◌, ◌++◌, map, length, ltb, str_eq, if◌then◌else◌,
}
use microservice_diagnosis.Store.Rows.{
  Uuid, Time, Status, resolved, failed, rejected, ignored, TriggerType, Risk, ApprovalStatus,
  ExecStatus, FixAction, Approval, DiagnosticSession,
}
use microservice_diagnosis.Agent.Observation.{Confidence}
use microservice_diagnosis.Report.Data.{ReportData, ReportEvent, ObservationEntry, RootCauseSummary}

-- The sentences of buildExecutiveSummary.
pub data Summary : Type 0 where
  was_resolved : String → ℕ → Summary
  encountered_failure was_rejected was_ignored : String → Summary
  produced : String → ℕ → Status → Summary
  is_currently : String → Status → Summary

pub data Line : Type 0 where
  header : Uuid → String → Status → TriggerType → Time → Time → Line
  executive_summary : Summary → Line
  no_events no_evidence no_root_cause no_fix_actions footer : Line
  event : ReportEvent → Line
  evidence : String → String → String → Line
  severity : String → Confidence → Line
  message pattern_found description supporting : String → Line
  labels : List (String × String) → Line
  evidence_id : Uuid → Line
  confidence : Confidence → Line
  supporting_evidence : Line
  fix_action : ℕ → String → String → Risk → ApprovalStatus → ExecStatus → Line
  rollback ticket : String → Line
  approval : Time → Uuid → ApprovalStatus → Option String → Line
  retry_count : ℕ → Line

abbrev of_actions : DiagnosticSession → List FixAction → Summary
of_actions s [] = is_currently s.target_service s.status
of_actions s (fa ∷ fas) = produced s.target_service (length (fa ∷ fas)) s.status

abbrev summary_of : Status → DiagnosticSession → List FixAction → Summary
summary_of resolved s fas = was_resolved s.target_service (length fas)
summary_of failed s fas = encountered_failure s.target_service
summary_of rejected s fas = was_rejected s.target_service
summary_of ignored s fas = was_ignored s.target_service
summary_of _ s fas = of_actions s fas

unfoldable pub build_executive_summary : ReportData → Summary
build_executive_summary d = summary_of d.session.status d.session d.fix_actions

abbrev event_lines : List ReportEvent → List Line
event_lines [] = []
event_lines (ev ∷ evs) = event ev ∷ event_lines evs

abbrev message_line : String → List Line
message_line m = if str_eq m "" then [] else message m ∷ []

abbrev labels_line : List (String × String) → List Line
labels_line [] = []
labels_line (l ∷ ls) = labels (l ∷ ls) ∷ []

abbrev evidence_lines : List ObservationEntry → List Line
evidence_lines [] = []
evidence_lines (o ∷ os) =
    evidence o.type_name o.sub_type o.target_service
    ∷ severity o.severity o.confidence
    ∷ (message_line o.message ++ (labels_line o.labels ++ (evidence_id o.id ∷ evidence_lines os)))

abbrev supporting_lines : List String → List Line
supporting_lines [] = []
supporting_lines (i ∷ ids) = supporting_evidence ∷ map supporting (i ∷ ids)

abbrev root_cause_lines : Option RootCauseSummary → List Line
root_cause_lines none = no_root_cause ∷ []
root_cause_lines (some c) =
    pattern_found c.pattern_name
    ∷ description c.description
    ∷ confidence c.confidence
    ∷ supporting_lines c.evidence_ids

abbrev or_line : Line → List Line → List Line
or_line l [] = l ∷ []
or_line l (m ∷ ms) = m ∷ ms

abbrev ticket_line : Option String → List Line
ticket_line none = []
ticket_line (some t) = if str_eq t "" then [] else ticket t ∷ []

abbrev fix_lines : List FixAction → List Line
fix_lines [] = []
fix_lines (fa ∷ fas) =
    fix_action fa.seq fa.action_type fa.target fa.risk fa.approval_status fa.execution_status
    ∷ rollback fa.rollback_plan
    ∷ (ticket_line fa.ticket_id ++ fix_lines fas)

abbrev approval_lines : List Approval → List Line
approval_lines [] = []
approval_lines (a ∷ as') =
    approval a.requested_at a.fix_action_id a.status a.decided_by ∷ approval_lines as'

abbrev retry_lines : ℕ → List Line
retry_lines n = if ltb 0 n then retry_count n ∷ [] else []

-- `RenderMarkdown` at the time `now`.
unfoldable pub render_markdown : Time → ReportData → List Line
render_markdown now d =
    let s = d.session in
    header s.id s.target_service s.status s.trigger_type s.created_at now
    ∷ executive_summary (build_executive_summary d)
    ∷ (or_line no_events (event_lines d.timeline)
        ++ or_line no_evidence (evidence_lines d.observations)
        ++ root_cause_lines d.root_cause
        ++ or_line no_fix_actions (fix_lines d.fix_actions)
        ++ approval_lines d.approval_logs
        ++ retry_lines s.retry_count
        ++ (footer ∷ []))
