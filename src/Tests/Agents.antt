-- ===== src/Tests/Agents.antt =====
-- The theorems on the agents, the transport's configuration and the executor at concrete inputs.
use microservice_diagnosis.Prelude.{
  pos, negsuc, String, true, false, none, some, List, [], ◌∷◌, ◌++◌, All, ◌≡◌, refl,
}
use microservice_diagnosis.Store.Rows.{FixAction, rca_done}
use microservice_diagnosis.Agent.Observation.{Observation, EvidenceType, Severity, within}
use microservice_diagnosis.Agent.Risk.{step}
use microservice_diagnosis.Agent.Fix.{FixAgent, handle}
use microservice_diagnosis.Agent.Fix.Gated.{IsProposed, handle-fixes}
use microservice_diagnosis.Agent.Runner.{CommandMessage, Incoming, Outgoing, Bus, Runner, outgoing}
use microservice_diagnosis.Agent.Runner.Loop.{Round, received, channel_closed}
use microservice_diagnosis.Bus.Config.{Config}
use microservice_diagnosis.Tests.Scenario.{quiet, world_in}

abbrev rca : Observation
rca = record {
  id = "";
  session_id = "1";
  source = "agent-rca";
  type = EvidenceType.rca_result;
  sub_type = "rca_result";
  confidence = within 0;
  severity = Severity.info;
  target_service = "orders";
  timestamp = none;
  schema_version = pos 7;
  fix_action_id = none;
  correlations = [];
  detail_json = "{}";
  labels = [];
}

-- An agent whose LLM asks for a restart and a switch of the master.
abbrev fix_agent : FixAgent
fix_agent = record {
  pool = true;
  parse_uuid = λ t. some 1;
  parse_rca = λ t. some "timeout_cascade";
  search = λ p. none;
  ask_llm = λ o. some (step "restart_pod" "orders-0" "" "" ∷ step "switch_master" "db" "" "" ∷ []);
  encode = λ d. some "{}";
  fresh = λ n. "u";
}

handle-fixes_example :
    (made : List FixAction) × ((handle quiet fix_agent "1"
        (rca ∷ [])
        (world_in rca_done [])).1.fixes
      ≡ [] ++ made)
    × All (IsProposed 1) made
handle-fixes_example = handle-fixes quiet fix_agent "1" 1 (rca ∷ []) (world_in rca_done []) refl

abbrev empty_bus : Bus
empty_bus = record { tick = 0; published = []; marked = [] }

abbrev log_runner : Runner
log_runner = record {
  name = "agent-log";
  output_topic = "mfdh.observations.log";
  handle = λ id inputs. some inputs;
  fault = λ n. false;
  cancelled = λ n. false;
  encode = λ c. "{}";
  marshals = λ o. true;
}

abbrev collect_for : String → Incoming
collect_for kind = record {
  offset = 3;
  as_command = some (record {
    session_id = "1";
    target_service = "orders";
    command = "collect";
    agent_kind = kind;
  });
  as_observation = none;
}

abbrev collect_command : String → CommandMessage
collect_command kind = record {
  session_id = "1";
  target_service = "orders";
  command = "collect";
  agent_kind = kind;
}

abbrev evidence : Outgoing
evidence = outgoing log_runner "1" rca

abbrev rounds : List Round
rounds =
    record { nils = 2; ends_waiting = false; event = received (collect_for "agent-log") }
    ∷ record { nils = 0; ends_waiting = false; event = channel_closed }
    ∷ record { nils = 0; ends_waiting = false; event = received (collect_for "agent-rca") }
    ∷ []

abbrev unset : Config
unset = record {
  brokers = "kafka:9092" ∷ [];
  dial_timeout = pos 0;
  write_timeout = pos 0;
  batch_size = pos 0;
  batch_bytes = negsuc 4;
  batch_timeout = pos 0;
  required_acks = "";
  min_bytes = pos 0;
  max_bytes = pos 0;
  max_wait = pos 0;
  replay_idle = pos 0;
  heartbeat_interval = pos 0;
  session_timeout = pos 0;
  rebalance_timeout = pos 0;
  join_group_backoff = pos 0;
}
