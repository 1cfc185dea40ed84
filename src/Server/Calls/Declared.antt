-- ===== src/Server/Calls/Declared.antt =====
-- No call of the server gives a session a status that the program does not declare.
use microservice_diagnosis.Prelude.{String, true, Option, some, List, [], ◌∷◌}
use microservice_diagnosis.Store.Rows.{Uuid}
use microservice_diagnosis.Store.World.{World, Env}
use microservice_diagnosis.Workflow.Declared.{AllDeclared}
use microservice_diagnosis.Workflow.Sweep.Declared.{sweep_round-AllDeclared}
use microservice_diagnosis.Server.EventLoop.Declared.{process_message-AllDeclared}
use microservice_diagnosis.Server.Handlers.Declared.{
  create_session-AllDeclared, start_session-AllDeclared, retry_session-AllDeclared,
  ignore_session-AllDeclared, decision_approval-AllDeclared,
}
use microservice_diagnosis.Server.Calls.{
  Call, post_session, post_start, post_retry, post_ignore, post_decision, observed, sweep_tick,
  serve, serve_all,
}

module _ (env : Env) (parse : String → Option Uuid) where
  serve-AllDeclared : (c : Call) (w : World) → AllDeclared w → AllDeclared (serve env parse c w)
  serve-AllDeclared (post_session body) = (create_session-AllDeclared env body).at
  serve-AllDeclared (post_start id) = (start_session-AllDeclared env (some true) id).at
  serve-AllDeclared (post_retry id) = (retry_session-AllDeclared env id).at
  serve-AllDeclared (post_ignore id) = (ignore_session-AllDeclared env id).at
  serve-AllDeclared (post_decision id approval_id request) =
      (decision_approval-AllDeclared env id approval_id request).at
  serve-AllDeclared (observed payload) = (process_message-AllDeclared env parse payload).at
  serve-AllDeclared sweep_tick = (sweep_round-AllDeclared env).at

-- When every session has one of the declared statuses, so has every session after any sequence of the
-- server's calls, whatever fails in them.
pub serve_all-AllDeclared :
    (env : Env) (parse : String → Option Uuid) (calls : List Call) (w : World)
    → AllDeclared w
    → AllDeclared (serve_all env parse calls w)
unfolding serve_all
serve_all-AllDeclared env parse [] w h = h
serve_all-AllDeclared env parse (c ∷ cs) w h =
    serve_all-AllDeclared env parse cs (serve env parse c w) (serve-AllDeclared env parse c w h)
