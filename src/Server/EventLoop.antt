-- ===== src/Server/EventLoop.antt =====
-- internal/server/event_loop.go: handleObservation, and what Run does with one message.
pub mod Idle
pub mod RiskGate
pub mod Isolation
pub mod Preserves
pub mod Commit
pub mod Declared
use microservice_diagnosis.Prelude.{
  String, Bool, true, false, Option, none, some, str_eq, if◌then◌else◌,
}
use microservice_diagnosis.Store.Rows.{
  Uuid, Status, created, collecting, analyzing, rca_done, awaiting_approval, fix_suggested,
}
use microservice_diagnosis.Store.World.{
  World, Env, M, Error, invalid_transition, Result, ok, err, pure, throw, try, ◌>>=◌, ◌>>◌,
}
use microservice_diagnosis.Workflow.Transitions.{
  collect_complete, analysis_complete, rca_generated, fix_generated, execute,
}
use microservice_diagnosis.Workflow.Engine.{get_status, transition}
use microservice_diagnosis.Server.Evidence.{
  ObservationPayload, Kind, collected, rca_result, fix_action, kind_of,
}
use microservice_diagnosis.Server.Dispatch.{dispatch_analyze}
use microservice_diagnosis.Server.ApprovalGate.{trigger_approval_gate}
use microservice_diagnosis.Server.FixExecution.{execute_fix_actions}

-- The fields of eventLoop that can be nil: the producer and the two callbacks.
pub record Wiring : Type 0 where
  pub producer : Bool
  pub on_approval_gate : Option (Uuid → M Unit)
  pub on_execute_fixes : Option (Uuid → M Unit)

-- The wiring of NewGinServer (internal/server/gin.go).
abbrev pub wired : Env → Wiring
wired env = record {
  producer = true;
  on_approval_gate = some (trigger_approval_gate env);
  on_execute_fixes = some (execute_fix_actions env);
}

-- A callback's error is logged.
abbrev pub run_callback : Option (Uuid → M Unit) → Uuid → M Unit
run_callback none id = pure tt
run_callback (some f) id = do try (f id); pure tt

abbrev pub after_collect : Env → Wiring → Uuid → String → Status → M Unit
after_collect env wiring id service analyzing = do
  try (dispatch_analyze env wiring.producer id service)
  pure tt
after_collect env wiring id service _ = pure tt

-- FIX_SUGGESTED, once the transition to FIX_EXECUTING has been tried.
abbrev pub after_execute : Env → Wiring → Uuid → Result Status → M Unit
after_execute env wiring id (ok s) = run_callback wiring.on_execute_fixes id
after_execute env wiring id (err invalid_transition) = pure tt
after_execute env wiring id (err x) = throw x

-- Step 3: the status that the risk check gave.
abbrev pub drive : Env → Wiring → Uuid → Status → M Unit
drive env wiring id awaiting_approval = run_callback wiring.on_approval_gate id
drive env wiring id fix_suggested = do
  executing ← try (transition env id execute)
  after_execute env wiring id executing
drive env wiring id _ = pure tt

-- Step 2: the risk check; a session that a sweep has moved already is left to it.
abbrev pub after_risk_check : Env → Wiring → Uuid → Result Status → M Unit
after_risk_check env wiring id (ok s) = drive env wiring id s
after_risk_check env wiring id (err invalid_transition) = pure tt
after_risk_check env wiring id (err x) = throw x

unfoldable pub propose_fixes : Env → Wiring → Uuid → M Unit
propose_fixes env wiring id = do
  transition env id rca_generated
  checked ← try (transition env id fix_generated)
  after_risk_check env wiring id checked

-- The two switches of handleObservation, on the session's status and on the evidence.
unfoldable pub advance_session : Env → Wiring → Uuid → String → Status → Kind → M Unit
advance_session env wiring id service collecting collected = do
  s ← transition env id collect_complete
  after_collect env wiring id service s
advance_session env wiring id service analyzing rca_result = do
  transition env id analysis_complete
  pure tt
advance_session env wiring id service rca_done fix_action = propose_fixes env wiring id
advance_session env wiring id service _ _ = pure tt

unfoldable pub handle_observation : Env → Wiring → Uuid → ObservationPayload → M Unit
handle_observation env wiring id obs = do
  status ← get_status env id
  advance_session env wiring id obs.target_service status (kind_of obs.type_name)

-- Whether the offset of a message is committed after its handler.
abbrev pub commits : Result (Unit {0}) → M Bool
commits (ok u) = pure true
commits (err x) = pure false

abbrev handle_parsed : Env → Wiring → ObservationPayload → Option Uuid → M Bool
handle_parsed env wiring obs none = pure true
handle_parsed env wiring obs (some id) = do
  handled ← try (handle_observation env wiring id obs)
  commits handled

-- The body of Run's loop for one message, as json.Unmarshal and uuid.Parse read it; the answer is
-- whether the offset is committed.
unfoldable pub process_message :
    Env → Wiring → (String → Option Uuid) → Option ObservationPayload → M Bool
process_message env wiring parse none = pure true
process_message env wiring parse (some obs) =
    if str_eq obs.session_id ""
    then pure true
    else handle_parsed env wiring obs (parse obs.session_id)
