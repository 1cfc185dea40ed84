-- ===== src/Server/EventLoop/Idle.antt =====
-- When an observation does nothing.
use microservice_diagnosis.Prelude.{String, false, some, ◌≡◌, refl}
use microservice_diagnosis.Store.Rows.{
  Uuid, Status, collecting, analyzing, rca_done, DiagnosticSession,
}
use microservice_diagnosis.Store.World.{World, Env, ok, query, advance}
use microservice_diagnosis.Store.SessionDao
use microservice_diagnosis.Store.SessionDao.{find_session}
use microservice_diagnosis.Workflow.Engine.{get_status}
use microservice_diagnosis.Server.Evidence.{
  ObservationPayload, Kind, collected, rca_result, fix_action, kind_of,
}
use microservice_diagnosis.Server.EventLoop.{Wiring, advance_session, handle_observation}

-- The pairs of a status and an evidence that the event loop reacts to.
pub data Expected : Status → Kind → Type 0 where
  evidence : Expected collecting collected
  diagnosis : Expected analyzing rca_result
  fix : Expected rca_done fix_action

ruleset expected = (evidence, diagnosis, fix)

advance_session_idle :
    (env : Env) (wiring : Wiring) (id : Uuid) (service : String) (s : Status) (k : Kind) (w : World)
    → ¬ Expected s k
    → advance_session env wiring id service s k w ≡ (ok tt, w)
unfolding advance_session
advance_session_idle env wiring id service collecting collected w h = absurd (h evidence)
advance_session_idle env wiring id service analyzing rca_result w h = absurd (h diagnosis)
advance_session_idle env wiring id service rca_done fix_action w h = absurd (h fix)
advance_session_idle env wiring id service _ _ w h = refl

get_status-row :
    (env : Env) (id : Uuid) (w : World) (row : DiagnosticSession)
    → find_session id w ≡ some row
    → env.fault w.tick ≡ false
    → get_status env id w ≡ (ok row.status, advance w)
unfolding get_status SessionDao.get_by_id query
get_status-row env id w row found calm = rw (calm, found)

-- When the session can be read, an observation that its status does not wait for is dropped: the
-- handler succeeds, changes no table, sends nothing and executes nothing.
pub handle_observation_idle :
    (env : Env) (wiring : Wiring) (id : Uuid) (obs : ObservationPayload) (w : World)
    (row : DiagnosticSession)
    → find_session id w ≡ some row
    → env.fault w.tick ≡ false
    → ¬ Expected row.status (kind_of obs.type_name)
    → handle_observation env wiring id obs w ≡ (ok tt, advance w)
unfolding handle_observation
handle_observation_idle env wiring id obs w row found calm h =
    rw (get_status-row env id w row found calm)
      (advance_session_idle env wiring id obs.target_service row.status (kind_of obs.type_name) _ h)
