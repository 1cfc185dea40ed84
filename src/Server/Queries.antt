-- ===== src/Server/Queries.antt =====
-- internal/server/orchestrator.go: ListSessions, GetSession and ListAgents, which only read. The id of
-- the path and the parameters of the query come as the parsers left them, `none` where they failed.
pub mod Pages
use microservice_diagnosis.Prelude.{
  ℕ, zero, suc, ◌-◌, ◌%◌, ℤ, pos, negsuc, String, Bool, Option, none, some, List, [], ◌∷◌, ◌++◌,
  map, ltb, if◌then◌else◌,
}
use microservice_diagnosis.Store.Rows.{
  Uuid, Time, Status, is_status, Risk, ExecStatus, FixAction, DiagnosticSession,
}
use microservice_diagnosis.Store.World.{
  World, Env, M, Error, not_found, Result, ok, err, pure, try, ◌>>=◌,
}
use microservice_diagnosis.Store.SessionDao
use microservice_diagnosis.Store.FixActionDao
use microservice_diagnosis.Store.SessionList.{ListFilter, Database, list}
use microservice_diagnosis.Server.StatusProto.{
  SessionStatus, status_to_proto, status_proto_to_string,
}

-- The conversion of an int of Go that is not negative to int32.
abbrev pub int32 : ℕ → ℤ
int32 n =
    let low = n % 4294967296 in if ltb low 2147483648 then pos low else negsuc (4294967295 - low)

pub record Session : Type 0 where
  pub id : Uuid
  pub target_service : String
  pub status : SessionStatus
  pub retry_count : ℤ
  pub created_at : Time
  pub updated_at : Time

unfoldable pub to_session_proto : DiagnosticSession → Session
to_session_proto s = record {
  id = s.id;
  target_service = s.target_service;
  status = status_to_proto s.status;
  retry_count = int32 s.retry_count;
  created_at = s.created_at;
  updated_at = s.updated_at;
}

pub record FixSummary : Type 0 where
  pub id : Uuid
  pub seq : ℤ
  pub action_type : String
  pub target : String
  pub risk : Risk
  pub status : ExecStatus
  pub rollback_plan : String

abbrev to_fix_summary_proto : FixAction → FixSummary
to_fix_summary_proto fa = record {
  id = fa.id;
  seq = int32 fa.seq;
  action_type = fa.action_type;
  target = fa.target;
  risk = fa.risk;
  status = fa.execution_status;
  rollback_plan = fa.rollback_plan;
}

pub record ListSessionsRequest : Type 0 where
  pub status : SessionStatus
  pub target_service : String
  pub keyword : String
  pub from : Option Time
  pub to : Option Time
  pub page : ℤ
  pub page_size : ℤ

pub record ListSessionsResponse : Type 0 where
  pub sessions : List Session
  pub total : ℤ
  pub page : ℤ
  pub page_size : ℤ

-- An event of a timeline, by its type; its message is a text of the session.
pub data TimelineEvent : Type 0 where
  session_created : String → Time → TimelineEvent
  session_started : Status → Time → TimelineEvent
  session_resolved : Time → TimelineEvent

pub record SessionDetail : Type 0 where
  pub session : Session
  pub timeline : List TimelineEvent
  pub fixes : List FixSummary

-- discovery.ServiceInstance, as far as it is shown.
pub record AgentInfo : Type 0 where
  pub name : String
  pub kind : String
  pub version : String
  pub status : String
  pub endpoint : String
  pub last_heartbeat : Time

pub data Response : Type 0 where
  listed : ListSessionsResponse → Response
  detailed : SessionDetail → Response
  agents : List AgentInfo → Response
  bad_request missing internal_error : Response

abbrev pub or_value : ℕ → ℤ → ℤ
or_value default (pos zero) = pos default
or_value default n = n

-- The filter that a request is turned into; the page is 1 and its size 20 where they are 0.
abbrev pub filter_of : ListSessionsRequest → ListFilter
filter_of r = record {
  status = status_proto_to_string r.status;
  target_service = r.target_service;
  from = r.from;
  to = r.to;
  keyword = r.keyword;
  page = or_value 1 r.page;
  page_size = or_value 20 r.page_size;
}

abbrev pub answer_list : ListSessionsRequest → Result (List DiagnosticSession × ℕ) → Response
answer_list r (err x) = internal_error
answer_list r (ok (rows, total)) = listed (record {
  sessions = map to_session_proto rows;
  total = int32 total;
  page = or_value 1 r.page;
  page_size = or_value 20 r.page_size;
})

-- `ListSessions`.
unfoldable pub list_sessions : Env → Database → Option ListSessionsRequest → M Response
list_sessions env d none = pure bad_request
list_sessions env d (some r) = do found ← try (list env d (filter_of r)); pure (answer_list r found)

unfoldable pub build_timeline : DiagnosticSession → List TimelineEvent
build_timeline s =
    session_created s.target_service s.created_at
    ∷ (if is_status Status.created s.status
        then []
        else session_started s.status s.updated_at
          ∷ (if is_status Status.resolved s.status then session_resolved s.updated_at ∷ [] else []))

-- An error of the query for the fix actions is dropped, and the list is empty.
abbrev or_no_fixes : Result (List FixAction) → List FixAction
or_no_fixes (ok fixes) = fixes
or_no_fixes (err x) = []

abbrev answer_session : Env → Uuid → Result DiagnosticSession → M Response
answer_session env id (err not_found) = pure missing
answer_session env id (err x) = pure internal_error
answer_session env id (ok s) = do
  fixes ← try (FixActionDao.get_by_session_id env id)
  pure (
      detailed (record {
        session = to_session_proto s;
        timeline = build_timeline s;
        fixes = map to_fix_summary_proto (or_no_fixes fixes);
      }))

-- `GetSession`.
unfoldable pub get_session : Env → Option Uuid → M Response
get_session env none = pure bad_request
get_session env (some id) = do s ← try (SessionDao.get_by_id env id); answer_session env id s

abbrev agent_types : List String
agent_types =
    "agent-log" ∷ "agent-metric" ∷ "agent-trace" ∷ "agent-rca" ∷ "agent-fix" ∷ "orchestrator" ∷ []

-- The instances that Discover finds of each name; a name for which it fails is left out.
unfoldable pub discover_each : (String → Option (List AgentInfo)) → List String → List AgentInfo
discover_each discover [] = []
discover_each discover (name ∷ names) =
    let rest = discover_each discover names in
    elim (discover name) [ none ↦ rest | some instances ↦ instances ++ rest ]

-- `ListAgents`, without or with a service discovery.
unfoldable pub list_agents : Option (String → Option (List AgentInfo)) → Response
list_agents none = agents []
list_agents (some discover) = agents (discover_each discover agent_types)
