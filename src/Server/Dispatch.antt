-- ===== src/Server/Dispatch.antt =====
-- internal/server/event_loop.go: DispatchCollect and DispatchAnalyze.
use microservice_diagnosis.Prelude.{String, Bool, List, [], ◌∷◌, ◌++◌, if◌then◌else◌}
use microservice_diagnosis.Store.Rows.{Uuid}
use microservice_diagnosis.Store.World.{
  Env, M, driver, pure, throw, try, ◌>>◌, CommandMessage, call,
}

-- `Publish`: the message is out, or an error comes back.
unfoldable pub publish : Env → CommandMessage → M Unit
unfolding call
publish env m = call env (λ w. record w { published = w.published ++ m ∷ [] })

abbrev pub collect_command : Uuid → String → String × String → CommandMessage
collect_command id service (kind, topic) = record {
  topic = topic;
  session_id = id;
  target_service = service;
  command = "collect";
  agent_kind = kind;
}

-- The kinds of the collector agents and their command topics.
abbrev pub collectors : List (String × String)
collectors =
    ("agent-log", "mfdh.commands.log")
    ∷ ("agent-metric", "mfdh.commands.metric")
    ∷ ("agent-trace", "mfdh.commands.trace")
    ∷ []

-- The loop over the agents: an agent whose message is not published is skipped.
unfoldable pub dispatch_each : Env → Uuid → String → List (String × String) → M Unit
dispatch_each env id service [] = pure tt
dispatch_each env id service (agent ∷ agents) = do
  try (publish env (collect_command id service agent))
  dispatch_each env id service agents

-- `producer` is false for a nil producer.
unfoldable pub dispatch_collect : Env → Bool → Uuid → String → M Unit
unfolding dispatch_each
dispatch_collect env producer id service =
    if producer then dispatch_each env id service collectors else throw driver

abbrev pub analyze_command : Uuid → String → CommandMessage
analyze_command id service = record {
  topic = "mfdh.commands.rca";
  session_id = id;
  target_service = service;
  command = "analyze";
  agent_kind = "agent-rca";
}

unfoldable pub dispatch_analyze : Env → Bool → Uuid → String → M Unit
dispatch_analyze env producer id service =
    if producer then publish env (analyze_command id service) else throw driver
