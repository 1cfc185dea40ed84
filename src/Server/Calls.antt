-- ===== src/Server/Calls.antt =====
-- internal/server/gin.go: what NewGinServer makes the server answer to, the routes that change a
-- session, the observations that the event loop reads and the ticks of its sweeps, one after the other.
-- The answers to the requests are in Server.Handlers; here only what becomes of the world.
pub mod Declared
use microservice_diagnosis.Prelude.{String, Bool, true, Option, some, List, [], ◌∷◌}
use microservice_diagnosis.Store.Rows.{Uuid}
use microservice_diagnosis.Store.World.{World, Env}
use microservice_diagnosis.Workflow.Sweep.{sweep_round}
use microservice_diagnosis.Server.Evidence.{ObservationPayload}
use microservice_diagnosis.Server.EventLoop.{wired, process_message}
use microservice_diagnosis.Server.Handlers.{
  create_session, start_session, retry_session, ignore_session, decision_approval, DecisionRequest,
}

-- The ids and the bodies are `none` where they do not parse.
pub data Call : Type 0 where
  post_session : Option String → Call
  post_start post_retry post_ignore : Option Uuid → Call
  post_decision : Option Uuid → Option Uuid → Option DecisionRequest → Call
  observed : Option ObservationPayload → Call
  sweep_tick : Call

-- `parse` is uuid.Parse on the session id of an observation.
abbrev serve : Env → (String → Option Uuid) → Call → World → World
serve env parse (post_session body) w = (create_session env body w).1
serve env parse (post_start id) w = (start_session env (some true) id w).1
serve env parse (post_retry id) w = (retry_session env id w).1
serve env parse (post_ignore id) w = (ignore_session env id w).1
serve env parse (post_decision id approval_id request) w =
    (decision_approval env id approval_id request w).1
serve env parse (observed payload) w = (process_message env (wired env) parse payload w).1
serve env parse sweep_tick w = (sweep_round env w).1

unfoldable pub serve_all : Env → (String → Option Uuid) → List Call → World → World
serve_all env parse [] w = w
serve_all env parse (c ∷ cs) w = serve_all env parse cs (serve env parse c w)
