-- ===== src/Agent/Rca.antt =====
-- internal/agent/rca.go: runRCA, the heuristic without an LLM, and Handle. What the LLM and the JSON
-- codec answer is a parameter; the summaries of the evidence, which are texts, are left out.
pub mod Answer
use microservice_diagnosis.Prelude.{
  ℕ, pos, ◌+◌, String, Bool, true, false, ◌&&◌, Option, none, some, List, [], ◌∷◌, ◌⊎◌, inl, inr,
  str_eq, ltb, if◌then◌else◌,
}
use microservice_diagnosis.Store.Rows.{Time}
use microservice_diagnosis.Agent.Observation.{
  EvidenceType, trace_evidence, alert, rca_result, Severity, info, warn, error, fatal, Confidence,
  negative, above_one, not_a_number, within, Observation, ValidationError, new,
}

pub record RcaOutput : Type 0 where
  pub root_cause : String
  pub root_cause_pattern : String
  pub confidence : Confidence

-- `chat` is none without a client, after an error, and for an answer that does not unmarshal;
-- `is_slow` says whether a detail has a duration above five seconds, and `analyze_target` gives the
-- target of a detail that unmarshals as an analyze command.
pub record RcaAgent : Type 0 where
  pub chat : String → List Observation → Option RcaOutput
  pub is_slow : String → Bool
  pub analyze_target : String → Option String
  pub encode : RcaOutput → String

-- The errors, the warnings and the slow spans that are counted.
pub record Tally : Type 0 where
  pub err_count : ℕ
  pub warn_count : ℕ
  pub slow_spans : ℕ

abbrev counts_as_error : Severity → Bool
counts_as_error error = true
counts_as_error fatal = true
counts_as_error _ = false

abbrev counts_as_warning : Severity → Bool
counts_as_warning warn = true
counts_as_warning _ = false

abbrev is_trace : EvidenceType → Bool
is_trace trace_evidence = true
is_trace _ = false

abbrev one_if : Bool → ℕ
one_if b = if b then 1 else 0

-- The loop over the evidence.
unfoldable pub tally : RcaAgent → List Observation → Tally
tally a [] = record { err_count = 0; warn_count = 0; slow_spans = 0 }
tally a (o ∷ os) =
    let rest = tally a os in
    record {
      err_count = one_if (counts_as_error o.severity) + rest.err_count;
      warn_count = one_if (counts_as_warning o.severity) + rest.warn_count;
      slow_spans = one_if (is_trace o.type && a.is_slow o.detail_json) + rest.slow_spans;
    }

abbrev pub output : String → String → ℕ → RcaOutput
output cause pattern bits = record {
  root_cause = cause;
  root_cause_pattern = pattern;
  confidence = within bits;
}

-- The confidences are the bits of 0.8, 0.75, 0.7, 0.65 and 0.3.
unfoldable pub conclude : Tally → RcaOutput
conclude t =
    if ltb 5 t.err_count && ltb 0 t.slow_spans
    then output "Cascading timeout triggered by slow downstream service" "timeout_cascade"
        4605380978949069210
    else if ltb 10 t.err_count
    then output "Database connection pool exhaustion causing repeated failures"
        "database_connection_pool_exhaustion" 4604930618986332160
    else if ltb 3 t.slow_spans
    then output "N+1 query pattern causing increased latency" "n_plus_one_query" 4604480259023595110
    else if ltb 20 t.warn_count
    then output "Memory or goroutine leak causing gradual degradation" "resource_leak"
        4604029899060858061
    else output "Unknown root cause, more evidence needed" "unknown" 4599075939470750515

unfoldable pub heuristic_rca : RcaAgent → List Observation → RcaOutput
heuristic_rca a inputs = conclude (tally a inputs)

-- heuristicRFACall; the name of the service in its text is left out.
abbrev heuristic_rfa_call : RcaOutput
heuristic_rfa_call =
    output "Analysis triggered (heuristic mode, no LLM)" "unknown" 4599075939470750515

-- math.Min(math.Max(c, 0), 1), which keeps a NaN.
abbrev pub clamp : Confidence → Confidence
clamp negative = within 0
clamp above_one = within 4607182418800017408
clamp c = c

abbrev pub fallback : RcaAgent → List Observation → RcaOutput
fallback a [] = heuristic_rfa_call
fallback a (o ∷ os) = heuristic_rca a (o ∷ os)

abbrev pub accept : RcaAgent → List Observation → Option RcaOutput → RcaOutput
accept a inputs none = fallback a inputs
accept a inputs (some r) =
    if str_eq r.root_cause ""
    then fallback a inputs
    else if str_eq r.root_cause_pattern ""
    then fallback a inputs
    else record r { confidence = clamp r.confidence }

unfoldable pub run_rca : RcaAgent → String → List Observation → RcaOutput
run_rca a service inputs = accept a inputs (a.chat service inputs)

-- The number of a severity; the numbers that have no name are taken to be above the named ones.
abbrev pub severity_number : Severity → ℕ
severity_number Severity.unspecified_severity = 0
severity_number Severity.debug = 1
severity_number info = 2
severity_number warn = 3
severity_number error = 4
severity_number fatal = 5
severity_number (Severity.undefined_severity n) = n + 6

-- The loop over the severities.
unfoldable pub greatest : Severity → List Observation → Severity
greatest s [] = s
greatest s (o ∷ os) =
    greatest (if ltb (severity_number s) (severity_number o.severity) then o.severity else s) os

abbrev pub draft_result :
    RcaAgent → String → Severity → String → List (String × String) → RcaOutput → Observation
draft_result a session_id severity service labels r = record {
  id = "";
  session_id = session_id;
  source = "agent-rca";
  type = rca_result;
  sub_type = "rca_result";
  confidence = r.confidence;
  severity = severity;
  target_service = service;
  timestamp = none;
  schema_version = pos 0;
  fix_action_id = none;
  correlations = [];
  detail_json = a.encode r;
  labels = labels;
}

-- The list of the one observation, or the error of New.
abbrev pub one_output : List ValidationError ⊎ Observation → Option (List Observation)
one_output (inl errs) = none
one_output (inr o) = some (o ∷ [])

abbrev answer_analyze :
    RcaAgent → String → Time → String → Observation → String → Option (List Observation)
answer_analyze a fresh now session_id o service =
    one_output (
      new fresh now (some (draft_result a session_id info service o.labels (run_rca a service []))))

abbrev answer_evidence :
    RcaAgent → String → Time → String → Observation → List Observation → Option (List Observation)
answer_evidence a fresh now session_id o os = one_output (
    new fresh now (
      some (
        draft_result a session_id (greatest info (o ∷ os)) o.target_service o.labels
          (run_rca a o.target_service (o ∷ os)))))

-- The target of an analyze command: a lone ALERT whose detail is one.
abbrev pub analyze_command : RcaAgent → Observation → List Observation → Option String
analyze_command a o (p ∷ os) = none
analyze_command a o [] = of_type o.type
  where
    of_type : EvidenceType → Option String
    of_type alert = a.analyze_target o.detail_json
    of_type _ = none

abbrev pub answer :
    RcaAgent
    → String
    → Time
    → String
    → Observation
    → List Observation
    → Option String
    → Option (List Observation)
answer a fresh now session_id o os none = answer_evidence a fresh now session_id o os
answer a fresh now session_id o os (some service) = answer_analyze a fresh now session_id o service

-- `Handle`, with the UUID and the time that New draws; none is an error.
unfoldable pub diagnose :
    RcaAgent → String → Time → String → List Observation → Option (List Observation)
diagnose a fresh now session_id [] = some []
diagnose a fresh now session_id (o ∷ os) =
    answer a fresh now session_id o os (analyze_command a o os)
