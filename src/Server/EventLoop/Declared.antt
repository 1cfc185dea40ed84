-- ===== src/Server/EventLoop/Declared.antt =====
-- What the event loop does for an observation leaves only declared statuses.
use microservice_diagnosis.Prelude.{String, Bool, true, Option, none, some, str_eq, ap, arith}
use microservice_diagnosis.Store.Rows.{Uuid, FixAction}
use microservice_diagnosis.Store.World.{Env, Result, ok, err}
use microservice_diagnosis.Store.Preserves.{
  Preserves, Preserves-bind, Preserves-try, Preserves-pure, Preserves-if, Preserves-sessions,
  preserves_rules,
}
use microservice_diagnosis.Store.SessionDao
use microservice_diagnosis.Store.FixActionDao
use microservice_diagnosis.Workflow.Declared.{HasDeclared, AllDeclared, transition-AllDeclared}
use microservice_diagnosis.Workflow.Sweep.Declared.{get_fixes-AllDeclared}
use microservice_diagnosis.Server.Evidence.{ObservationPayload}
use microservice_diagnosis.Server.Dispatch.{publish, dispatch_analyze}
use microservice_diagnosis.Server.ApprovalGate.{trigger_approval_gate}
use microservice_diagnosis.Server.ApprovalGate.Quiet.{trigger_approval_gate-Keeps}
use microservice_diagnosis.Server.FixExecution.{run_action}
use microservice_diagnosis.Server.EventLoop.Preserves.{Calls, handle_observation-Preserves}
use microservice_diagnosis.Server.EventLoop.{
  wired, handle_observation, commits, handle_parsed, process_message,
}

module _ (env : Env) (id : Uuid) where
  get_session-AllDeclared : Preserves AllDeclared (SessionDao.get_by_id env id)
  unfolding SessionDao.get_by_id
  get_session-AllDeclared =
      Preserves-sessions HasDeclared (SessionDao.get_by_id env id) (λ w. ground arith)

  dispatch_analyze-AllDeclared :
      (producer : Bool) (service : String)
      → Preserves AllDeclared (dispatch_analyze env producer id service)
  unfolding dispatch_analyze publish
  dispatch_analyze-AllDeclared producer service =
      Preserves-sessions HasDeclared (dispatch_analyze env producer id service) (λ w. ground arith)

  run_action-AllDeclared : (fa : FixAction) → Preserves AllDeclared (run_action env fa)
  unfolding run_action FixActionDao.update_execution_status FixActionDao.set_ticket_id
  run_action-AllDeclared fa = Preserves-sessions HasDeclared (run_action env fa) (λ w. ground arith)

  calls-AllDeclared : Calls env id AllDeclared
  calls-AllDeclared = record {
    moved = transition-AllDeclared env id;
    session_read = get_session-AllDeclared;
    fixes_read = get_fixes-AllDeclared env id;
    notified = λ event status s. record { at = λ w h. h };
    dispatched = dispatch_analyze-AllDeclared;
    executed = run_action-AllDeclared;
    gated =
        Preserves-sessions HasDeclared (trigger_approval_gate env id)
          (λ w. ap (λ p. p.0) ((trigger_approval_gate-Keeps env id).at w));
  }

  handle_observation-AllDeclared :
      (obs : ObservationPayload) → Preserves AllDeclared (handle_observation env (wired env) id obs)
  handle_observation-AllDeclared = handle_observation-Preserves env id AllDeclared calls-AllDeclared

module _ (env : Env) (parse : String → Option Uuid) where
  commits-AllDeclared : (r : Result (Unit {0})) → Preserves AllDeclared (commits r)
  commits-AllDeclared (ok u) = search preserves_rules
  commits-AllDeclared (err x) = search preserves_rules

  handle_parsed-AllDeclared :
      (obs : ObservationPayload) (id : Option Uuid)
      → Preserves AllDeclared (handle_parsed env (wired env) obs id)
  handle_parsed-AllDeclared obs none = search preserves_rules
  handle_parsed-AllDeclared obs (some id) =
      Preserves-bind _ _ (Preserves-try _ (handle_observation-AllDeclared env id obs))
        commits-AllDeclared

  pub process_message-AllDeclared :
      (payload : Option ObservationPayload)
      → Preserves AllDeclared (process_message env (wired env) parse payload)
  unfolding process_message
  process_message-AllDeclared none = search preserves_rules
  process_message-AllDeclared (some obs) =
      Preserves-if (str_eq obs.session_id "") _ _ (Preserves-pure true)
        (handle_parsed-AllDeclared obs (parse obs.session_id))
