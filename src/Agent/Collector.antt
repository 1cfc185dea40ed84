-- ===== src/Agent/Collector.antt =====
-- internal/agent/metric.go, trace.go and log.go: the Handle that the three collecting agents share.
-- An agent is its name, its type of evidence, what it makes up for a collect command, and what it
-- finds in the evidence of its type.
pub mod Sound
pub mod Metric
pub mod Trace
pub mod Log
use microservice_diagnosis.Prelude.{
  ℕ, ◌+◌, pos, String, Bool, true, false, ◌&&◌, Option, none, some, List, [], ◌∷◌, ◌++◌, map,
  filter, length, str_eq, ◌⊎◌, inl, inr, if◌then◌else◌,
}
use microservice_diagnosis.Store.Rows.{Uuid, Time}
use microservice_diagnosis.Agent.Observation.{
  EvidenceType, alert, Severity, Confidence, Observation, ValidationError, new,
}

-- The part of a finding that stands in the observation beside its detail, and the detail if json.Marshal
-- encodes it.
pub record Finding : Type 0 where
  pub confidence : Confidence
  pub severity : Severity
  pub target_service : String
  pub fix_action_id : Option Uuid
  pub correlations : List (String × String)
  pub detail : Option String
  pub labels : List (String × String)

pub record Collector : Type 0 where
  pub name : String
  pub type : EvidenceType
  pub is_input : EvidenceType → Bool
  pub sub_type : String
  pub synthetic : Observation → Finding
  pub find : List Observation → List Finding
  -- Whether a finding whose detail is not encoded is left out; otherwise its detail is empty.
  pub skips_undetailed : Bool

-- The UUIDs and the times that observation.New draws.
pub record Draws : Type 0 where
  pub fresh : ℕ → String
  pub now : ℕ → Time

abbrev is_alert : EvidenceType → Bool
is_alert alert = true
is_alert _ = false

abbrev pub is_collect_command : Observation → Bool
is_collect_command o = is_alert o.type && str_eq o.sub_type "collect_command"

abbrev or_empty : Option String → String
or_empty none = ""
or_empty (some detail) = detail

abbrev pub draft : Collector → String → Finding → Observation
draft c session_id f = record {
  id = "";
  session_id = session_id;
  source = c.name;
  type = c.type;
  sub_type = c.sub_type;
  confidence = f.confidence;
  severity = f.severity;
  target_service = f.target_service;
  timestamp = none;
  schema_version = pos 0;
  fix_action_id = f.fix_action_id;
  correlations = f.correlations;
  detail_json = or_empty f.detail;
  labels = f.labels;
}

abbrev pub or_next : List ValidationError ⊎ Observation → Option Observation → Option Observation
or_next (inl errs) rest = rest
or_next (inr o) rest = some o

-- The answer to the first collect command for which New accepts it.
unfoldable pub answer_command :
    Collector → Draws → String → ℕ → List Observation → Option Observation
answer_command c d session_id i [] = none
answer_command c d session_id i (o ∷ os) =
    let rest = answer_command c d session_id (i + 1) os in
    if is_collect_command o
    then or_next (new (d.fresh i) (d.now i) (some (draft c session_id (c.synthetic o)))) rest
    else rest

abbrev pub is_left_out : Bool → Option String → Bool
is_left_out skips none = skips
is_left_out skips (some detail) = false

abbrev pub emitted : List ValidationError ⊎ Observation → List Observation → List Observation
emitted (inl errs) rest = rest
emitted (inr o) rest = o ∷ rest

-- The loop that emits the findings.
unfoldable pub emit : Collector → Draws → String → ℕ → List Finding → List Observation
emit c d session_id i [] = []
emit c d session_id i (f ∷ fs) =
    let rest = emit c d session_id (i + 1) fs in
    if is_left_out c.skips_undetailed f.detail
    then rest
    else emitted (new (d.fresh i) (d.now i) (some (draft c session_id f))) rest

abbrev pub or_findings : Option Observation → List Observation → List Observation
or_findings (some o) found = o ∷ []
or_findings none found = found

-- `Handle`, which never returns an error.
unfoldable pub handle : Collector → Draws → String → List Observation → List Observation
handle c d session_id inputs =
    or_findings (answer_command c d session_id 0 inputs)
      (emit c d session_id (length inputs) (c.find (filter (λ o. c.is_input o.type) inputs)))
