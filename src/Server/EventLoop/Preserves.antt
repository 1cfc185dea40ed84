-- ===== src/Server/EventLoop/Preserves.antt =====
-- What handleObservation preserves in the deployed wiring: a property of the world that none of the
-- calls that it is built from changes.
use microservice_diagnosis.Prelude.{String, Bool, some, List, [], ◌∷◌}
use microservice_diagnosis.Store.Rows.{
  Uuid, Status, DiagnosticSession, FixAction, collecting, analyzing, rca_done, awaiting_approval,
  fix_suggested,
}
use microservice_diagnosis.Store.World.{
  World, Env, M, Result, ok, err, invalid_transition, EventType,
}
use microservice_diagnosis.Store.Preserves.{
  Preserves, Preserves-bind, Preserves-pure, Preserves-if, preserves_rules,
}
use microservice_diagnosis.Store.SessionDao
use microservice_diagnosis.Store.FixActionDao
use microservice_diagnosis.Workflow.Transitions.{Event}
use microservice_diagnosis.Workflow.Engine.{transition, get_status}
use microservice_diagnosis.Server.Evidence.{
  ObservationPayload, Kind, collected, rca_result, fix_action, kind_of,
}
use microservice_diagnosis.Server.Dispatch.{dispatch_analyze}
use microservice_diagnosis.Server.ApprovalGate.{notify, trigger_approval_gate}
use microservice_diagnosis.Server.FixExecution.{
  run_action, execute_each, finish, unless_invalid, execute_fix_actions,
}
use microservice_diagnosis.Server.EventLoop.{
  wired, run_callback, after_collect, after_execute, drive, after_risk_check, propose_fixes,
  advance_session, handle_observation,
}

-- The calls that handleObservation is built from, for the session of an observation.
pub record Calls (env : Env) (id : Uuid) (P : World → Type 0) : Type 0 where
  pub moved : (e : Event) → Preserves P (transition env id e)
  pub session_read : Preserves P (SessionDao.get_by_id env id)
  pub fixes_read : Preserves P (FixActionDao.get_by_session_id env id)
  pub notified :
      (event : EventType) (status : Status) (s : DiagnosticSession)
      → Preserves P (notify env event id status s)
  pub dispatched :
      (producer : Bool) (service : String) → Preserves P (dispatch_analyze env producer id service)
  pub executed : (fa : FixAction) → Preserves P (run_action env fa)
  pub gated : Preserves P (trigger_approval_gate env id)

module _ (env : Env) (id : Uuid) (P : World → Type 0) (calls : Calls env id P) where
  abbrev Safe : {A : Type 0} → M A → Type 0
  Safe m = Preserves P m

  transition-Safe : (e : Event) → Safe (transition env id e)
  transition-Safe e = calls.moved e

  get_session-Safe : Safe (SessionDao.get_by_id env id)
  get_session-Safe = calls.session_read

  get_fixes-Safe : Safe (FixActionDao.get_by_session_id env id)
  get_fixes-Safe = calls.fixes_read

  notify-Safe :
      (event : EventType) (status : Status) (s : DiagnosticSession)
      → Safe (notify env event id status s)
  notify-Safe event status s = calls.notified event status s

  dispatch_analyze-Safe :
      (producer : Bool) (service : String) → Safe (dispatch_analyze env producer id service)
  dispatch_analyze-Safe producer service = calls.dispatched producer service

  run_action-Safe : (fa : FixAction) → Safe (run_action env fa)
  run_action-Safe fa = calls.executed fa

  gate-Safe : Safe (trigger_approval_gate env id)
  gate-Safe = calls.gated

  execute_each-Safe : (fas : List FixAction) → Safe (execute_each env fas)
  unfolding execute_each
  execute_each-Safe [] = search preserves_rules
  execute_each-Safe (fa ∷ fas) =
      Preserves-bind _ _ (Preserves-if _ _ _ (run_action-Safe fa) (Preserves-pure tt))
        λ done. execute_each-Safe fas

  unless_invalid-Safe : (r : Result Status) → Safe (unless_invalid r)
  unless_invalid-Safe (ok s) = search preserves_rules
  unless_invalid-Safe (err invalid_transition) = search preserves_rules
  unless_invalid-Safe (err x) = record { at = λ w h. h }

  finish-Safe : (s : DiagnosticSession) → Safe (finish env id s)
  unfolding finish
  finish-Safe s = search (preserves_rules, transition-Safe, unless_invalid-Safe, notify-Safe)

  execute_fix_actions-Safe : Safe (execute_fix_actions env id)
  unfolding execute_fix_actions
  execute_fix_actions-Safe =
      search (preserves_rules, get_fixes-Safe, get_session-Safe, execute_each-Safe, finish-Safe)

  run_callback-Safe : (f : Uuid → M Unit) → Safe (f id) → Safe (run_callback (some f) id)
  run_callback-Safe f h = search (preserves_rules, h)

  after_collect-Safe :
      (service : String) (s : Status) → Safe (after_collect env (wired env) id service s)
  after_collect-Safe service analyzing = search (preserves_rules, dispatch_analyze-Safe)
  after_collect-Safe service _ = record { at = λ w h. h }

  after_execute-Safe : (r : Result Status) → Safe (after_execute env (wired env) id r)
  after_execute-Safe (ok s) = search (preserves_rules, execute_fix_actions-Safe)
  after_execute-Safe (err invalid_transition) = search preserves_rules
  after_execute-Safe (err x) = record { at = λ w h. h }

  drive-Safe : (s : Status) → Safe (drive env (wired env) id s)
  drive-Safe awaiting_approval = search (preserves_rules, gate-Safe)
  drive-Safe fix_suggested = search (preserves_rules, transition-Safe, after_execute-Safe)
  drive-Safe _ = record { at = λ w h. h }

  after_risk_check-Safe : (r : Result Status) → Safe (after_risk_check env (wired env) id r)
  after_risk_check-Safe (ok s) = drive-Safe s
  after_risk_check-Safe (err invalid_transition) = search preserves_rules
  after_risk_check-Safe (err x) = record { at = λ w h. h }

  propose_fixes-Safe : Safe (propose_fixes env (wired env) id)
  unfolding propose_fixes
  propose_fixes-Safe =
      Preserves-bind _ _ (transition-Safe _)
        λ s. search (preserves_rules, transition-Safe, after_risk_check-Safe)

  advance_session-Safe :
      (service : String) (s : Status) (k : Kind)
      → Safe (advance_session env (wired env) id service s k)
  unfolding advance_session
  advance_session-Safe service collecting collected =
      search (preserves_rules, transition-Safe, after_collect-Safe)
  advance_session-Safe service analyzing rca_result =
      Preserves-bind _ _ (transition-Safe _) λ s. search preserves_rules
  advance_session-Safe service rca_done fix_action = propose_fixes-Safe
  advance_session-Safe service _ _ = record { at = λ w h. h }

  get_status-Safe : Safe (get_status env id)
  unfolding get_status
  get_status-Safe = search (preserves_rules, get_session-Safe)

  -- What the leaves preserve, the whole of handleObservation does, in the deployed wiring.
  pub handle_observation-Preserves :
      (obs : ObservationPayload) → Preserves P (handle_observation env (wired env) id obs)
  unfolding handle_observation
  handle_observation-Preserves obs =
      Preserves-bind _ _ get_status-Safe
        λ s. advance_session-Safe obs.target_service s (kind_of obs.type_name)
