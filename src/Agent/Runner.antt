-- ===== src/Agent/Runner.antt =====
-- internal/agent/runner.go: processMessage and publishWithRetry. The payload of a message comes as
-- the two JSON codecs read it; the agent is its name, its output topic and its Handle.
pub mod Delivery
pub mod Loop
use microservice_diagnosis.Prelude.{
  ℤ, pos, negsuc, ℕ, zero, suc, ◌+◌, String, Bool, true, false, not, ◌&&◌, Option, none, some, List,
  [], ◌∷◌, ◌++◌, str_eq, if◌then◌else◌,
}
use microservice_diagnosis.Agent.Observation.{
  Confidence, within, Severity, info, alert, Observation,
}

-- bus.CommandMessage, with the strings of the wire.
pub record CommandMessage : Type 0 where
  pub session_id : String
  pub target_service : String
  pub command : String
  pub agent_kind : String

-- A message of the input topic.
pub record Incoming : Type 0 where
  pub offset : ℕ
  pub as_command : Option CommandMessage
  pub as_observation : Option Observation

-- A message that is published: its topic, its key, and the observation that its value encodes, none for
-- the empty value that mustMarshal makes of one that is not encoded.
pub record Outgoing : Type 0 where
  pub topic : String
  pub key : String
  pub value : Option Observation

-- What the producer and the consumer have seen: the calls made, the messages out, the offsets marked.
pub record Bus : Type 0 where
  pub tick : ℕ
  pub published : List Outgoing
  pub marked : List ℕ

-- `Handle` gives none for an error. `fault` says which calls of Publish fail, and `cancelled` at which
-- of them the context is done; `encode` is json.Marshal of a command, and `marshals` whether
-- observation.ToJSON encodes an observation.
pub record Runner : Type 0 where
  pub name : String
  pub output_topic : String
  pub handle : String → List Observation → Option (List Observation)
  pub fault : ℕ → Bool
  pub cancelled : ℕ → Bool
  pub encode : CommandMessage → String
  pub marshals : Observation → Bool

abbrev mark_as_processed : Incoming → Bus → Bus
mark_as_processed msg b = record b { marked = b.marked ++ msg.offset ∷ [] }

abbrev pub publish : Runner → Outgoing → Bus → Bool × Bus
publish r m b =
    if r.fault b.tick
    then (false, record b { tick = b.tick + 1 })
    else (true, record b { tick = b.tick + 1; published = b.published ++ m ∷ [] })

-- What is left of the loop of publishWithRetry, with its attempts left; every attempt but the first
-- waits before it, which the end of the context cuts short, with no effect after the last. True is a nil
-- error.
unfoldable pub retry_publish : Runner → Outgoing → ℕ → Bus → Bool × Bus
retry_publish r m zero b = (false, b)
retry_publish r m (suc n) b =
    let (sent, b') = publish r m b in
    let again = retry_publish r m n b' in
    if sent then (true, b') else if r.cancelled b'.tick then (false, b') else again

unfoldable pub publish_with_retry : Runner → Outgoing → Bus → Bool × Bus
publish_with_retry r m b = retry_publish r m 3 b

-- `mustMarshal`, which drops the error.
abbrev must_marshal : Runner → Observation → Option Observation
must_marshal r o = if r.marshals o then some o else none

abbrev pub outgoing : Runner → String → Observation → Outgoing
outgoing r session_id o = record {
  topic = r.output_topic;
  key = session_id;
  value = must_marshal r (record o { session_id = session_id });
}

-- The loop over the outputs; an error of the publication is logged.
unfoldable pub publish_outputs : Runner → String → List Observation → Bus → Bus
publish_outputs r session_id [] b = b
publish_outputs r session_id (o ∷ os) b =
    publish_outputs r session_id os (publish_with_retry r (outgoing r session_id o) b).1

abbrev publish_handled : Runner → String → Option (List Observation) → Bus → Bus
publish_handled r session_id none b = b
publish_handled r session_id (some outputs) b = publish_outputs r session_id outputs b

-- The trigger observation that is built for a command.
abbrev pub trigger : Runner → CommandMessage → Observation
trigger r cmd = record {
  id = "";
  session_id = cmd.session_id;
  source = "orchestrator";
  type = alert;
  sub_type = "collect_command";
  confidence = within 4607182418800017408;
  severity = info;
  target_service = cmd.target_service;
  timestamp = none;
  schema_version = pos 0;
  fix_action_id = none;
  correlations = [];
  detail_json = r.encode cmd;
  labels = [];
}

abbrev pub is_for : Runner → CommandMessage → Bool
is_for r cmd = if str_eq cmd.agent_kind "" then true else str_eq cmd.agent_kind r.name

abbrev run_command : Runner → CommandMessage → Bus → Bus
run_command r cmd b =
    if is_for r cmd
    then publish_handled r cmd.session_id (r.handle cmd.session_id (trigger r cmd ∷ [])) b
    else b

abbrev run_observation : Runner → Option Observation → Bus → Bus
run_observation r none b = b
run_observation r (some o) b =
    if str_eq o.source r.name
    then b
    else if str_eq o.session_id ""
    then b
    else publish_handled r o.session_id (r.handle o.session_id (o ∷ [])) b

-- A payload is a command if it unmarshals as one with a session and a command.
abbrev pub command_of : Incoming → Option CommandMessage
command_of msg = named msg.as_command
  where
    named : Option CommandMessage → Option CommandMessage
    named none = none
    named (some cmd) =
        if str_eq cmd.session_id "" then none else if str_eq cmd.command "" then none else some cmd

abbrev run_message : Runner → Incoming → Option CommandMessage → Bus → Bus
run_message r msg (some cmd) b = run_command r cmd b
run_message r msg none b = run_observation r msg.as_observation b

-- Every return of processMessage marks the message as processed.
unfoldable pub process_message : Runner → Incoming → Bus → Bus
process_message r msg b = mark_as_processed msg (run_message r msg (command_of msg) b)
