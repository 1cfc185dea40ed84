-- ===== src/Tests/Collectors.antt =====
-- The theorems on the collecting agents at concrete inputs.
use mathlib.Core.List.Permᴰ
use microservice_diagnosis.Prelude.{pos, String, none, some, List, [], ◌∷◌, ◌+◌, All, ◌≡◌}
use microservice_diagnosis.Agent.Observation.{Observation, EvidenceType, Severity, within}
use microservice_diagnosis.Agent.Collector.{Collector, Draws, handle}
use microservice_diagnosis.Agent.Collector.Sound.{IsFrom, handle-IsFrom}
use microservice_diagnosis.Agent.Collector.Log.{count_errors, detect_log_patterns, log_agent}
use microservice_diagnosis.Agent.Collector.Log.Counts.{
  counted, IsPattern, detect_log_patterns-counted,
}

abbrev error_log : String → Observation
error_log service = record {
  id = "o";
  session_id = "1";
  source = "fluent-bit";
  type = EvidenceType.log_evidence;
  sub_type = "raw";
  confidence = within 0;
  severity = Severity.error;
  target_service = service;
  timestamp = some 5;
  schema_version = pos 1;
  fix_action_id = none;
  correlations = ("trace_id", "t") ∷ [];
  detail_json = "{}";
  labels = [];
}

abbrev logs : List Observation
logs = error_log "orders" ∷ error_log "payments" ∷ error_log "orders" ∷ []

abbrev collector : Collector
collector = log_agent (λ n. "error_count") (λ gs. gs) 1 2 (λ p. some "{}")

abbrev draws : Draws
draws = record { fresh = λ n. "u"; now = λ n. 5 + n }

collector_example : All (IsFrom collector "1") (handle collector draws "1" logs)
collector_example = handle-IsFrom collector draws "1" logs

counts_example :
    (counted (detect_log_patterns (λ n. "error_count") (λ gs. gs) logs) ≡ count_errors logs)
    × All IsPattern (detect_log_patterns (λ n. "error_count") (λ gs. gs) logs)
counts_example =
    detect_log_patterns-counted (λ n. "error_count") (λ gs. gs) logs (λ gs. Permᴰ.refl gs)
