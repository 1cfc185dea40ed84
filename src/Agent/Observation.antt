-- ===== src/Agent/Observation.antt =====
-- internal/observation/observation.go: New and Validate, over the fields of the contract.
pub mod Contract
pub mod Codec
use microservice_diagnosis.Prelude.{
  ℕ, ℤ, pos, ltbℤ, String, Bool, true, false, Option, none, some, List, [], ◌∷◌, ◌++◌, str_eq, ltb,
  ◌||◌, ◌⊎◌, inl, inr, if◌then◌else◌,
}
use microservice_diagnosis.Store.Rows.{Uuid, Time}

pub data EvidenceType : Type 0 where
  unspecified_type log_evidence metric_evidence trace_evidence : EvidenceType
  alert rca_result fix_action : EvidenceType
  undefined_type : ℕ → EvidenceType

pub data Severity : Type 0 where
  unspecified_severity debug info warn error fatal : Severity
  undefined_severity : ℕ → Severity

-- A float64 by its place about [0, 1], with its bits where it stands inside.
pub data Confidence : Type 0 where
  negative above_one not_a_number : Confidence
  within : ℕ → Confidence

-- `fix_action_id` is the correlation with that key, and `correlations` are the others.
pub record Observation : Type 0 where
  pub id : String
  pub session_id : String
  pub source : String
  pub type : EvidenceType
  pub sub_type : String
  pub confidence : Confidence
  pub severity : Severity
  pub target_service : String
  pub timestamp : Option Time
  pub schema_version : ℤ
  pub fix_action_id : Option Uuid
  pub correlations : List (String × String)
  pub detail_json : String
  pub labels : List (String × String)

pub data ValidationError : Type 0 where
  nil_observation empty_id empty_session_id empty_source unspecified_type : ValidationError
  unspecified_severity confidence_out_of_range unsupported_schema_version : ValidationError

abbrev pub has_no_type : EvidenceType → Bool
has_no_type EvidenceType.unspecified_type = true
has_no_type _ = false

abbrev pub has_no_severity : Severity → Bool
has_no_severity Severity.unspecified_severity = true
has_no_severity _ = false

abbrev pub out_of_range : Confidence → Bool
out_of_range (within bits) = false
out_of_range _ = true

-- MinSchemaVersion and MaxSchemaVersion.
abbrev pub below_min : ℤ → Bool
below_min v = ltbℤ v (pos 1)

abbrev pub above_max : ℤ → Bool
above_max v = ltbℤ (pos 1) v

abbrev report_if : Bool → ValidationError → List ValidationError → List ValidationError
report_if b e errs = if b then e ∷ errs else errs

-- The errors that are joined, in their order.
unfoldable pub validate : Observation → List ValidationError
validate o = report_if (str_eq o.id "") empty_id (
    report_if (str_eq o.session_id "") empty_session_id (
      report_if (str_eq o.source "") empty_source (
        report_if (has_no_type o.type) ValidationError.unspecified_type (
          report_if (has_no_severity o.severity) ValidationError.unspecified_severity (
            report_if (out_of_range o.confidence) confidence_out_of_range (
              report_if (below_min o.schema_version || above_max o.schema_version)
                unsupported_schema_version []))))))

abbrev or_now : Time → Option Time → Option Time
or_now now none = some now
or_now now (some t) = some t

-- The system fields that New fills in.
abbrev pub fill_system : String → Time → Observation → Observation
fill_system fresh now o = record o {
  id = if str_eq o.id "" then fresh else o.id;
  timestamp = or_now now o.timestamp;
  schema_version = pos 1;
}

abbrev pub when_valid : Observation → List ValidationError → List ValidationError ⊎ Observation
when_valid o [] = inr o
when_valid o (e ∷ errs) = inl (e ∷ errs)

-- `New`, with the UUID and the time that it draws; `none` is a nil observation.
unfoldable pub new : String → Time → Option Observation → List ValidationError ⊎ Observation
new fresh now none = inl (nil_observation ∷ [])
new fresh now (some o) = when_valid (fill_system fresh now o) (validate (fill_system fresh now o))
