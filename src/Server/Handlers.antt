-- ===== src/Server/Handlers.antt =====
-- internal/server/orchestrator.go: the HTTP handlers that change a session. The ids of the path and
-- the body of the request come as the parsers left them, `none` where they failed.
pub mod Retry
pub mod Preserves
pub mod Decisions
pub mod Declared
use microservice_diagnosis.Prelude.{
  ℕ, String, Bool, Option, none, some, ◌==◌, str_eq, if◌then◌else◌,
}
use microservice_diagnosis.Store.Rows.{
  Uuid, Status, manual, ApprovalStatus, approved, rejected, Approval, FixAction, DiagnosticSession,
}
use microservice_diagnosis.Store.World.{
  World, Env, M, Error, not_found, session_not_found, invalid_transition, Result, ok, err, pure,
  try, ◌>>=◌, ◌>>◌,
}
use microservice_diagnosis.Store.SessionDao
use microservice_diagnosis.Store.FixActionDao
use microservice_diagnosis.Store.ApprovalDao
use microservice_diagnosis.Workflow.Transitions.{
  Event, start_collect, retry, ignore, approve, reject,
}
use microservice_diagnosis.Workflow.Engine.{transition}
use microservice_diagnosis.Server.Dispatch.{dispatch_collect}

-- `panicked` is the nil dereference of `toSessionProto`, which gin turns into a 500.
pub data Response : Type 0 where
  session_created session_ok : DiagnosticSession → Response
  decided : Uuid → ApprovalStatus → Response
  bad_request missing internal_error panicked : Response

abbrev answer_created : Result DiagnosticSession → Response
answer_created (ok s) = session_created s
answer_created (err x) = internal_error

abbrev created_for : Env → String → M Response
created_for env service = do s ← try (SessionDao.create env service manual); pure (answer_created s)

-- `CreateSession`; the body is its target service.
unfoldable pub create_session : Env → Option String → M Response
create_session env none = pure bad_request
create_session env (some service) =
    if str_eq service "" then pure bad_request else created_for env service

-- The answers to an error of Transition that StartSession and IgnoreSession give.
abbrev answer_transition : Error → Response
answer_transition session_not_found = missing
answer_transition invalid_transition = bad_request
answer_transition _ = internal_error

abbrev answer_get : Error → Response
answer_get not_found = missing
answer_get _ = internal_error

abbrev answer_dispatch : DiagnosticSession → Result (Unit {0}) → M Response
answer_dispatch s (ok u) = pure (session_ok s)
answer_dispatch s (err x) = pure internal_error

-- `loop` is none for a nil event loop, and else whether its producer is there.
abbrev dispatch_started : Env → Option Bool → Uuid → Result DiagnosticSession → M Response
dispatch_started env loop id (err x) = pure (answer_get x)
dispatch_started env none id (ok s) = pure (session_ok s)
dispatch_started env (some producer) id (ok s) = do
  dispatched ← try (dispatch_collect env producer id s.target_service)
  answer_dispatch s dispatched

abbrev after_start : Env → Option Bool → Uuid → Result Status → M Response
after_start env loop id (err x) = pure (answer_transition x)
after_start env loop id (ok status) = do
  s ← try (SessionDao.get_by_id env id)
  dispatch_started env loop id s

unfoldable pub start_session : Env → Option Bool → Option Uuid → M Response
start_session env loop none = pure bad_request
start_session env loop (some id) = do
  started ← try (transition env id start_collect)
  after_start env loop id started

abbrev answer_session : Result DiagnosticSession → Response
answer_session (ok s) = session_ok s
answer_session (err x) = panicked

abbrev after_ignore : Env → Uuid → Result Status → M Response
after_ignore env id (err x) = pure (answer_transition x)
after_ignore env id (ok status) = do s ← try (SessionDao.get_by_id env id); pure (answer_session s)

unfoldable pub ignore_session : Env → Option Uuid → M Response
ignore_session env none = pure bad_request
ignore_session env (some id) = do
  ignored ← try (transition env id ignore)
  after_ignore env id ignored

abbrev after_retry : Env → Uuid → Result Status → M Response
after_retry env id (err invalid_transition) = pure bad_request
after_retry env id (err x) = pure internal_error
after_retry env id (ok status) = do s ← try (SessionDao.get_by_id env id); pure (answer_session s)

abbrev after_increment : Env → Uuid → Result ℕ → M Response
after_increment env id (err x) = pure (answer_get x)
after_increment env id (ok count) = do
  retried ← try (transition env id retry)
  after_retry env id retried

unfoldable pub retry_session : Env → Option Uuid → M Response
retry_session env none = pure bad_request
retry_session env (some id) = do
  counted ← try (SessionDao.increment_retry env id)
  after_increment env id counted

-- The decision of the request: the enum's zero value, REJECT, or any other of its numbers.
pub data Decision : Type 0 where
  unspecified approve_decision reject_decision undefined_decision : Decision

pub record DecisionRequest : Type 0 where
  pub decision : Decision
  pub decided_by : String

abbrev decision_status : Decision → ApprovalStatus
decision_status reject_decision = rejected
decision_status _ = approved

abbrev decision_event : Decision → Event
decision_event reject_decision = reject
decision_event _ = approve

-- `fixAction, _ := ...; if fixAction != nil`; the error of the update is dropped.
abbrev mark_fix : Env → ApprovalStatus → Result FixAction → M Unit
mark_fix env status (err x) = pure tt
mark_fix env status (ok fa) = do try (FixActionDao.update_approval_status env fa.id status); pure tt

-- Once the approval has its decision. The outcome of the transition is dropped.
abbrev after_update : Env → Uuid → Uuid → Approval → Decision → Result (Unit {0}) → M Response
after_update env id approval_id a decision (err x) = pure internal_error
after_update env id approval_id a decision (ok u) = do
  fa ← try (FixActionDao.get_by_id env a.fix_action_id)
  mark_fix env (decision_status decision) fa
  try (transition env id (decision_event decision))
  pure (decided approval_id (decision_status decision))

abbrev decide : Env → Uuid → Uuid → Approval → DecisionRequest → M Response
decide env id approval_id a request = do
  updated ← try (
      ApprovalDao.update_decision env approval_id (decision_status request.decision)
        request.decided_by)
  after_update env id approval_id a request.decision updated

abbrev check_owner : Env → Uuid → Uuid → DecisionRequest → Result Approval → M Response
check_owner env id approval_id request (err x) = pure (answer_get x)
check_owner env id approval_id request (ok a) =
    if a.session_id == id then decide env id approval_id a request else pure bad_request

abbrev check_decision : Env → Uuid → Uuid → DecisionRequest → Decision → M Response
check_decision env id approval_id request unspecified = pure bad_request
check_decision env id approval_id request _ = do
  a ← try (ApprovalDao.get_by_id env approval_id)
  check_owner env id approval_id request a

unfoldable pub decision_approval :
    Env → Option Uuid → Option Uuid → Option DecisionRequest → M Response
decision_approval env none approval_id request = pure bad_request
decision_approval env (some id) none request = pure bad_request
decision_approval env (some id) (some approval_id) none = pure bad_request
decision_approval env (some id) (some approval_id) (some request) =
    check_decision env id approval_id request request.decision
