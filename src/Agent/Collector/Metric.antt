-- ===== src/Agent/Collector/Metric.antt =====
-- internal/agent/metric.go: MetricAgent, with what detectMetricAnomalies finds. A float64 and its
-- operations are a parameter, and so are the JSON codecs of the details.
use microservice_diagnosis.Prelude.{
  ℕ, String, Bool, true, false, Option, none, some, List, [], ◌∷◌, ◌++◌, map, str_eq, ◌||◌,
  if◌then◌else◌,
}
use microservice_diagnosis.Store.Rows.{Uuid}
use microservice_diagnosis.Agent.Observation.{
  EvidenceType, metric_evidence, Severity, warn, error, fatal, Confidence, within, Observation,
}
use microservice_diagnosis.Agent.Collector.{Finding, Collector}

-- The operations of float64 that the agents use; `of n` is the constant n.
pub record Floats (F : Type 0) : Type 0 where
  pub of : ℕ → F
  pub times : F → F → F
  pub less : F → F → Bool
  pub at_most : F → F → Bool
  pub equal : F → F → Bool

pub record MetricPayload (F : Type 0) : Type 0 where
  pub metric_name : String
  pub value : F
  pub threshold : F
  pub relation : String

pub record MetricAnomaly (F : Type 0) : Type 0 where
  pub payload : MetricPayload F
  pub anomaly_type : String
  pub confidence : Confidence
  pub severity : Severity
  pub target_service : String
  pub fix_action_id : Option Uuid
  pub correlations : List (String × String)
  pub labels : List (String × String)

-- A severity and its confidence: 0.75, 0.85 or 0.95.
abbrev pub graded : Bool → Bool → Severity × Confidence
graded much_more true = (fatal, within 4606732058837280358)
graded true false = (error, within 4605831338911806259)
graded false false = (warn, within 4604930618986332160)

abbrev pub is_metric : EvidenceType → Bool
is_metric metric_evidence = true
is_metric _ = false

module _ {F : Type 0} (fl : Floats F) where
  -- The switch on the relation.
  abbrev pub is_anomaly : MetricPayload F → Bool
  is_anomaly p =
      if str_eq p.relation "gt"
      then fl.less p.threshold p.value
      else if str_eq p.relation "lt"
      then fl.less p.value p.threshold
      else if str_eq p.relation "eq"
      then fl.equal p.value p.threshold
      else false

  abbrev grade : MetricPayload F → Severity × Confidence
  grade p =
      graded (fl.less (fl.times p.threshold (fl.of 2)) p.value)
        (fl.less (fl.times p.threshold (fl.of 5)) p.value)

  abbrev pub anomaly_of : Observation → MetricPayload F → MetricAnomaly F
  anomaly_of m p = record {
    payload = p;
    anomaly_type = "threshold_breach";
    confidence = (grade p).1;
    severity = (grade p).0;
    target_service = m.target_service;
    fix_action_id = m.fix_action_id;
    correlations = m.correlations;
    labels = m.labels;
  }

  abbrev pub anomalies_of : Observation → Option (MetricPayload F) → List (MetricAnomaly F)
  anomalies_of m none = []
  anomalies_of m (some p) =
      if str_eq p.metric_name "" || fl.equal p.threshold (fl.of 0)
      then []
      else if is_anomaly p
      then anomaly_of m p ∷ []
      else []

  -- `detectMetricAnomalies`.
  unfoldable pub detect_metric_anomalies :
      (String → Option (MetricPayload F)) → List Observation → List (MetricAnomaly F)
  detect_metric_anomalies decode [] = []
  detect_metric_anomalies decode (m ∷ ms) =
      anomalies_of m (decode m.detail_json) ++ detect_metric_anomalies decode ms

  -- The anomaly that is made up for a collect command: 150 over the threshold 100, at 0.8.
  abbrev synthetic_anomaly : Observation → MetricAnomaly F
  synthetic_anomaly o = record {
    payload = record {
      metric_name = "http_request_duration_ms";
      value = fl.of 150;
      threshold = fl.of 100;
      relation = "gt";
    };
    anomaly_type = "latency_breach";
    confidence = within 4605380978949069210;
    severity = error;
    target_service = o.target_service;
    fix_action_id = none;
    correlations = [];
    labels = o.labels;
  }

  abbrev finding_of : (MetricAnomaly F → Option String) → MetricAnomaly F → Finding
  finding_of encode a = record {
    confidence = a.confidence;
    severity = a.severity;
    target_service = a.target_service;
    fix_action_id = a.fix_action_id;
    correlations = a.correlations;
    detail = encode a;
    labels = a.labels;
  }

  abbrev pub metric_agent :
      (String → Option (MetricPayload F)) → (MetricAnomaly F → Option String) → Collector
  metric_agent decode encode = record {
    name = "agent-metric";
    type = metric_evidence;
    is_input = is_metric;
    sub_type = "metric_anomaly";
    synthetic = λ o. finding_of encode (synthetic_anomaly o);
    find = λ ms. map (finding_of encode) (detect_metric_anomalies decode ms);
    skips_undetailed = false;
  }
