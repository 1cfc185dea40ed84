-- ===== src/Tests/Services.antt =====
-- The theorems on what is listed, reported, approved and notified, at concrete inputs.
use microservice_diagnosis.Prelude.{
  String, Option, ◌*◌, pos, true, false, none, some, [], ◌∷◌, map, take, ltb, if◌then◌else◌, ◌≡◌,
  refl,
}
use microservice_diagnosis.Store.Rows.{rca_done, awaiting_approval}
use microservice_diagnosis.Store.World.{World, approval_required, DiagnosticEvent, ok, query}
use microservice_diagnosis.Store.SessionDao
use microservice_diagnosis.Store.FixActionDao
use microservice_diagnosis.Store.SessionEventDao
use microservice_diagnosis.Store.SessionList.{Database}
use microservice_diagnosis.Server.StatusProto.{SessionStatus, status_proto_to_string}
use microservice_diagnosis.Server.Queries.{ListSessionsRequest, to_session_proto}
use microservice_diagnosis.Server.Queries.Pages.{pages, newest, pages-take}
use microservice_diagnosis.Approval.Tokens.{ApprovalRequest, Tokens}
use microservice_diagnosis.Approval.WebhookClient
use microservice_diagnosis.Approval.WebhookClient.{WebhookResponse}
use microservice_diagnosis.Report.Data.{
  ReportData, load_report_data, get_all_approvals_for_session, build_timeline_from_session,
}
use microservice_diagnosis.Report.Data.Own.{IsOwn, load_report_data-IsOwn}
use microservice_diagnosis.Notify.Webhook.{WebhookConfig, Reply, Channel}
use microservice_diagnosis.Llm.Client.{Client, State, no_response, answered, chat}
use microservice_diagnosis.Llm.Client.Limit.{IsLimited, chat-IsLimited}
use microservice_diagnosis.Tests.Scenario.{quiet, world_in, session_in, restart, switch_over}

abbrev database : Database
database = record { like = λ keyword row. false; tie = λ n a b. true }

abbrev everything : ListSessionsRequest
everything = record {
  status = SessionStatus.unspecified;
  target_service = "";
  keyword = "";
  from = none;
  to = none;
  page = pos 0;
  page_size = pos 0;
}

-- Two sessions of different times.
abbrev two_sessions : World
two_sessions = record (world_in rca_done []) {
  sessions =
      session_in 1 rca_done ∷ record (session_in 2 awaiting_approval) { created_at = 950 } ∷ [];
}

pages_example :
    pages quiet database everything 0 two_sessions 2
    ≡ map to_session_proto (take (2 * 1) (newest database everything two_sessions))
unfolding status_proto_to_string
pages_example =
    pages-take quiet database everything 0 2 two_sessions (λ t. refl) ((refl, tt), (tt, tt))

abbrev switch_request : ApprovalRequest
switch_request = record {
  session_id = 1;
  fix_action_id = 11;
  summary = "switch_master";
  risk = "HIGH";
  target = "db";
  requested_by = "";
}

abbrev yes : WebhookResponse
yes = record { decision = "APPROVED"; decided_by = "operator"; reason = "" }

-- The external system decides when it hears of the cancellation.
abbrev decides : String → Option WebhookResponse
decides url = some yes

abbrev asked : Tokens
asked = (WebhookClient.request_approval true (some "a1") 100 switch_request []).1

abbrev gated : ReportData
gated = record {
  session = session_in 1 awaiting_approval;
  timeline = build_timeline_from_session (session_in 1 awaiting_approval) [];
  observations = [];
  root_cause = none;
  fix_actions = restart ∷ switch_over ∷ [];
  approval_logs = [];
}

loaded :
    (load_report_data quiet 1 (world_in awaiting_approval (restart ∷ switch_over ∷ []))).0
    ≡ ok gated
unfolding load_report_data SessionDao.get_by_id FixActionDao.get_by_session_id
    get_all_approvals_for_session SessionEventDao.get_by_session_id query
loaded = refl

report_example : IsOwn 1 (world_in awaiting_approval (restart ∷ switch_over ∷ [])) gated
report_example =
    load_report_data-IsOwn quiet 1 (world_in awaiting_approval (restart ∷ switch_over ∷ [])) gated
      loaded

-- The first attempt is refused.
abbrev channel : Channel
channel = record {
  reply = λ cfg n. Reply.answered (if ltb n 2 then 503 else 200);
  sign = λ body secret. "sha256=";
  marshal = λ e. "{}";
}

abbrev slack : WebhookConfig
slack = record {
  id = 1;
  name = "ops";
  channel = "slack";
  url = "https://hooks";
  secret = "";
  enabled = true;
}

abbrev approval_needed : DiagnosticEvent
approval_needed = record {
  event_type = approval_required;
  session_id = 1;
  status = awaiting_approval;
  service = "orders";
  timestamp = 5;
}

-- The first attempt has no response, and two other goroutines call while this one sleeps.
abbrev model : Client
model = record {
  min_interval = 100;
  reply = λ n. if ltb n 1 then no_response else answered 200 (some (false, "restart" ∷ []));
  cancelled = λ t. false;
  delay = λ t. 3;
  others = λ t. 1000 ∷ 1050 ∷ [];
}

abbrev idle : State
idle = record { tick = 0; now = 1000; last_request = 0; reserved = []; sent = [] }

idle-IsLimited : IsLimited model idle
idle-IsLimited = record { spaced = tt; latest = tt; not_early = tt }

limit_example : IsLimited model (chat model idle).1
limit_example = chat-IsLimited model idle idle-IsLimited
