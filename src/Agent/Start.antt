-- ===== src/Agent/Start.antt =====
-- internal/agent/agent_run.go: the start of an agent, and the agents' topics. The consumer, the
-- producer and the loop of the runner are what they answer.
pub mod Topology
use microservice_diagnosis.Prelude.{
  String, Bool, true, false, Option, none, some, List, [], ◌∷◌, str_eq, if◌then◌else◌,
}
use microservice_diagnosis.Bus.Topic.{group_id}

-- What NewLogAgent and its like are given, and what their three methods return; `pool` and `llm` say
-- whether the agent has a database and an LLM.
pub record Agent : Type 0 where
  pub name : String
  pub input_topic : String
  pub output_topic : String
  pub pool : Bool
  pub llm : Bool

abbrev agent : String → String → String → Agent
agent name input output = record {
  name = name;
  input_topic = input;
  output_topic = output;
  pool = false;
  llm = false;
}

-- The switch of Run; `none` is an unknown name.
unfoldable pub new_agent : String → Option Agent
new_agent name =
    if str_eq name "agent-log"
    then some (agent "agent-log" "mfdh.commands.log" "mfdh.observations.log")
    else if str_eq name "agent-metric"
    then some (agent "agent-metric" "mfdh.commands.metric" "mfdh.observations.metric")
    else if str_eq name "agent-trace"
    then some (agent "agent-trace" "mfdh.commands.trace" "mfdh.observations.trace")
    else if str_eq name "agent-rca"
    then some (agent "agent-rca" "mfdh.commands.rca" "mfdh.observations.rca")
    else if str_eq name "agent-fix"
    then some (agent "agent-fix" "mfdh.observations.rca" "mfdh.observations.fix")
    else none

-- The subscription of an agent: its topic and its group.
abbrev pub subscription : String → Agent → String × String
subscription name a = (a.input_topic, group_id name a.input_topic)

-- What runner.Run returns: nil, an error of a context, or any other error.
pub data RunnerEnd : Type 0 where
  returned cancelled broken : RunnerEnd

-- The calls of Run outside; `done` says whether the context of the signals has ended.
pub record Services : Type 0 where
  pub consumer : String × String → Bool
  pub producer : Bool
  pub runner : Agent → RunnerEnd
  pub done : Bool

-- How Run ends: os.Exit, nil or an error.
pub data Ending : Type 0 where
  exited stopped failed : Ending

pub data Effect : Type 0 where
  opened_consumer closed_consumer opened_producer closed_producer : Effect

abbrev ending_of : RunnerEnd → Bool → Ending
ending_of returned done = stopped
ending_of cancelled done = stopped
ending_of broken done = if done then stopped else failed

abbrev run_agent : Services → String → Option Agent → List Effect × Ending
run_agent s name none = ([], exited)
run_agent s name (some a) =
    if s.consumer (subscription name a)
    then (if s.producer
        then (
          opened_consumer ∷ opened_producer ∷ closed_producer ∷ closed_consumer ∷ [],
          ending_of (s.runner a) s.done,
        )
        else (opened_consumer ∷ closed_consumer ∷ [], failed))
    else ([], failed)

-- `Run`: what is opened and closed, in order, and how it ends.
unfoldable pub run : Services → String → List Effect × Ending
run s name = run_agent s name (new_agent name)
