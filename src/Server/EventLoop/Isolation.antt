-- ===== src/Server/EventLoop/Isolation.antt =====
-- An observation of one session leaves every other session's rows alone.
use microservice_diagnosis.Prelude.{String, Bool, false, List, filter, ◌==◌, ◌≡◌, refl, ap, arith}
use microservice_diagnosis.Store.Rows.{Uuid, DiagnosticSession, FixAction}
use microservice_diagnosis.Store.World.{World, Env}
use microservice_diagnosis.Store.Preserves.{Preserves-kept}
use microservice_diagnosis.Store.SessionDao
use microservice_diagnosis.Store.SessionDao.{has_session_id}
use microservice_diagnosis.Store.FixActionDao
use microservice_diagnosis.Workflow.Sweep.Untouched.{rows_of, transition-rows_of}
use microservice_diagnosis.Server.Evidence.{ObservationPayload}
use microservice_diagnosis.Server.Dispatch.{publish, dispatch_analyze}
use microservice_diagnosis.Server.ApprovalGate.{trigger_approval_gate}
use microservice_diagnosis.Server.ApprovalGate.Quiet.{trigger_approval_gate-Keeps}
use microservice_diagnosis.Server.FixExecution.{run_action}
use microservice_diagnosis.Server.EventLoop.{wired, handle_observation}
use microservice_diagnosis.Server.EventLoop.Preserves.{Calls, handle_observation-Preserves}

module _ (env : Env) (id j : Uuid) (other : (id == j) ≡ false) where
  session_read-rows_of : (w : World) → rows_of j (SessionDao.get_by_id env id w).1 ≡ rows_of j w
  unfolding SessionDao.get_by_id
  session_read-rows_of w = ground arith

  fixes_read-rows_of :
      (w : World) → rows_of j (FixActionDao.get_by_session_id env id w).1 ≡ rows_of j w
  unfolding FixActionDao.get_by_session_id
  fixes_read-rows_of w = ground arith

  dispatched-rows_of :
      (producer : Bool) (service : String) (w : World)
      → rows_of j (dispatch_analyze env producer id service w).1 ≡ rows_of j w
  unfolding dispatch_analyze publish
  dispatched-rows_of producer service w = ground arith

  executed-rows_of : (fa : FixAction) (w : World) → rows_of j (run_action env fa w).1 ≡ rows_of j w
  unfolding run_action FixActionDao.update_execution_status FixActionDao.set_ticket_id
  executed-rows_of fa w = ground arith

  gated-rows_of : (w : World) → rows_of j (trigger_approval_gate env id w).1 ≡ rows_of j w
  gated-rows_of w =
      ap (λ p. filter (has_session_id j) p.0) ((trigger_approval_gate-Keeps env id).at w)

  calls-rows_of : (rows : List DiagnosticSession) → Calls env id (λ w. rows_of j w ≡ rows)
  calls-rows_of rows = record {
    moved = λ e. Preserves-kept (rows_of j) rows _ (λ w. transition-rows_of env id j e w other);
    session_read = Preserves-kept (rows_of j) rows _ session_read-rows_of;
    fixes_read = Preserves-kept (rows_of j) rows _ fixes_read-rows_of;
    notified = λ event status s. Preserves-kept (rows_of j) rows _ (λ w. refl);
    dispatched =
        λ producer service. Preserves-kept (rows_of j) rows _ (dispatched-rows_of producer service);
    executed = λ fa. Preserves-kept (rows_of j) rows _ (executed-rows_of fa);
    gated = Preserves-kept (rows_of j) rows _ gated-rows_of;
  }

  -- In the deployed wiring, what the event loop does for an observation of one session, with all the
  -- callbacks that it leads to, leaves the rows of every other session as they are.
  pub handle_observation-rows_of :
      (obs : ObservationPayload) (w : World)
      → rows_of j (handle_observation env (wired env) id obs w).1 ≡ rows_of j w
  handle_observation-rows_of obs w =
      (handle_observation-Preserves env id (λ v. rows_of j v ≡ rows_of j w)
          (calls-rows_of (rows_of j w)) obs).at
        w refl
