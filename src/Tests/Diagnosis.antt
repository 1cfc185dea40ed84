-- ===== src/Tests/Diagnosis.antt =====
-- The theorem on the RCA agent at a concrete input.
use microservice_diagnosis.Prelude.{pos, true, none, some, [], ◌∷◌, refl, arith}
use microservice_diagnosis.Agent.Observation.{Observation, EvidenceType, Severity, within}
use microservice_diagnosis.Agent.Rca.{RcaAgent, diagnose}
use microservice_diagnosis.Agent.Rca.Answer.{Answered, diagnose-Answered}

-- An agent without an LLM.
abbrev plain_agent : RcaAgent
plain_agent = record {
  chat = λ service os. none;
  is_slow = λ d. true;
  analyze_target = λ d. none;
  encode = λ r. "{}";
}

abbrev slow_span : Observation
slow_span = record {
  id = "t";
  session_id = "1";
  source = "agent-trace";
  type = EvidenceType.trace_evidence;
  sub_type = "slow_span";
  confidence = within 0;
  severity = Severity.error;
  target_service = "orders";
  timestamp = some 5;
  schema_version = pos 1;
  fix_action_id = none;
  correlations = [];
  detail_json = "{}";
  labels = [];
}

diagnose_example : Answered (diagnose plain_agent "u" 5 "1" (slow_span ∷ []))
diagnose_example =
    diagnose-Answered plain_agent "u" 5 "1" refl refl (λ service os r e. ground arith) slow_span []
