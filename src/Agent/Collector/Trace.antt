-- ===== src/Agent/Collector/Trace.antt =====
-- internal/agent/trace.go: TraceAgent, with what detectTraceBottlenecks finds. The operations of
-- float64 and the JSON codecs of the details are parameters.
use microservice_diagnosis.Prelude.{
  String, Bool, true, false, Option, none, some, List, [], ◌∷◌, ◌++◌, map, str_eq, ◌||◌,
  if◌then◌else◌,
}
use microservice_diagnosis.Agent.Observation.{
  EvidenceType, trace_evidence, Severity, error, Confidence, within, Observation,
}
use microservice_diagnosis.Agent.Collector.{Finding, Collector}
use microservice_diagnosis.Agent.Collector.Metric.{Floats, graded}

pub record TracePayload (F : Type 0) : Type 0 where
  pub span_id : String
  pub trace_id : String
  pub service_name : String
  pub operation_name : String
  pub duration_ms : F
  pub p99_ms : F

pub record TraceBottleneck (F : Type 0) : Type 0 where
  pub payload : TracePayload F
  pub confidence : Confidence
  pub severity : Severity
  pub target_service : String
  pub correlations : List (String × String)
  pub labels : List (String × String)

abbrev pub is_trace : EvidenceType → Bool
is_trace trace_evidence = true
is_trace _ = false

abbrev pub span_correlations : String → String → List (String × String)
span_correlations trace_id span_id =
    let span = ("span_id", span_id) ∷ [] in
    if str_eq trace_id "" then span else ("trace_id", trace_id) ∷ span

module _ {F : Type 0} (fl : Floats F) where
  -- Twice the P99, or a second where that is 0.
  abbrev pub threshold_of : TracePayload F → F
  threshold_of p =
      let twice = fl.times p.p99_ms (fl.of 2) in
      if fl.equal twice (fl.of 0) then fl.of 1000 else twice

  abbrev grade : TracePayload F → Severity × Confidence
  grade p =
      graded (fl.less (fl.times (threshold_of p) (fl.of 3)) p.duration_ms)
        (fl.less (fl.times (threshold_of p) (fl.of 5)) p.duration_ms)

  abbrev pub bottleneck_of : Observation → TracePayload F → TraceBottleneck F
  bottleneck_of t p = record {
    payload = p;
    confidence = (grade p).1;
    severity = (grade p).0;
    target_service = t.target_service;
    correlations = span_correlations p.trace_id p.span_id;
    labels = t.labels;
  }

  abbrev pub bottlenecks_of : Observation → Option (TracePayload F) → List (TraceBottleneck F)
  bottlenecks_of t none = []
  bottlenecks_of t (some p) =
      if str_eq p.span_id "" || fl.equal p.duration_ms (fl.of 0)
      then []
      else if fl.at_most p.duration_ms (threshold_of p)
      then []
      else bottleneck_of t p ∷ []

  -- `detectTraceBottlenecks`.
  unfoldable pub detect_trace_bottlenecks :
      (String → Option (TracePayload F)) → List Observation → List (TraceBottleneck F)
  detect_trace_bottlenecks decode [] = []
  detect_trace_bottlenecks decode (t ∷ ts) =
      bottlenecks_of t (decode t.detail_json) ++ detect_trace_bottlenecks decode ts

  -- The slow span that is made up for a collect command, at 0.8.
  abbrev synthetic_bottleneck : Observation → TraceBottleneck F
  synthetic_bottleneck o = record {
    payload = record {
      span_id = "span-001";
      trace_id = "trace-abc123";
      service_name = o.target_service;
      operation_name = "/orders";
      duration_ms = fl.of 1200;
      p99_ms = fl.of 500;
    };
    confidence = within 4605380978949069210;
    severity = error;
    target_service = o.target_service;
    correlations = span_correlations "trace-abc123" "span-001";
    labels = o.labels;
  }

  abbrev finding_of : (TraceBottleneck F → Option String) → TraceBottleneck F → Finding
  finding_of encode b = record {
    confidence = b.confidence;
    severity = b.severity;
    target_service = b.target_service;
    fix_action_id = none;
    correlations = b.correlations;
    detail = encode b;
    labels = b.labels;
  }

  abbrev pub trace_agent :
      (String → Option (TracePayload F)) → (TraceBottleneck F → Option String) → Collector
  trace_agent decode encode = record {
    name = "agent-trace";
    type = trace_evidence;
    is_input = is_trace;
    sub_type = "trace_bottleneck";
    synthetic = λ o. finding_of encode (synthetic_bottleneck o);
    find = λ ts. map (finding_of encode) (detect_trace_bottlenecks decode ts);
    skips_undetailed = false;
  }
