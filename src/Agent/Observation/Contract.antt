-- ===== src/Agent/Observation/Contract.antt =====
-- What the contract of an observation promises, and that Validate and New keep it.
use microservice_diagnosis.Prelude.{
  ℤ, pos, negsuc, ℕ, String, false, some, List, [], ◌∷◌, ◌≡◌, ◌≢◌, ◌↔◌, inl, inr, refl, arith,
  str_eq, Bool-cases, subst, sym,
}
use microservice_diagnosis.Store.Rows.{Time}
use microservice_diagnosis.Agent.Observation.{
  EvidenceType, Severity, Confidence, within, Observation, ValidationError, validate, fill_system,
  when_valid, new, has_no_type, has_no_severity, out_of_range, below_min, above_max,
}

-- The contract of an observation, field by field.
pub record IsValid (o : Observation) : Type 0 where
  pub has_id : str_eq o.id "" ≡ false
  pub has_session_id : str_eq o.session_id "" ≡ false
  pub has_source : str_eq o.source "" ≡ false
  pub has_type : o.type ≢ EvidenceType.unspecified_type
  pub has_severity : o.severity ≢ Severity.unspecified_severity
  pub in_range : (bits : ℕ) × (o.confidence ≡ within bits)
  pub supported : o.schema_version ≡ pos 1

type_lem : (t : EvidenceType) → has_no_type t ≡ false → t ≢ EvidenceType.unspecified_type
type_lem t h e = ground arith

severity_lem : (s : Severity) → has_no_severity s ≡ false → s ≢ Severity.unspecified_severity
severity_lem s h e = ground arith

range_lem : (c : Confidence) → out_of_range c ≡ false → (bits : ℕ) × (c ≡ within bits)
range_lem (within bits) h = (bits, refl)
range_lem _ h = cc

version_lem : (v : ℤ) → below_min v ≡ false → above_max v ≡ false → v ≡ pos 1
version_lem (pos n) h k = ground arith
version_lem (negsuc n) h k = cc

not_type_lem : (t : EvidenceType) → t ≢ EvidenceType.unspecified_type → has_no_type t ≡ false
not_type_lem EvidenceType.unspecified_type h = absurd (h refl)
not_type_lem _ h = refl

not_severity_lem : (s : Severity) → s ≢ Severity.unspecified_severity → has_no_severity s ≡ false
not_severity_lem Severity.unspecified_severity h = absurd (h refl)
not_severity_lem _ h = refl

validate-IsValid : (o : Observation) → validate o ≡ [] → IsValid o
unfolding validate
validate-IsValid o h = record {
  has_id = ground arith;
  has_session_id = ground arith;
  has_source = ground arith;
  has_type = type_lem o.type (ground arith);
  has_severity = severity_lem o.severity (ground arith);
  in_range = range_lem o.confidence (ground arith);
  supported = version_lem o.schema_version (ground arith) (ground arith);
}

IsValid-validate : (o : Observation) → IsValid o → validate o ≡ []
unfolding validate
IsValid-validate o v =
    rw
      (
        v.has_id,
        v.has_session_id,
        v.has_source,
        not_type_lem o.type v.has_type,
        not_severity_lem o.severity v.has_severity,
        v.in_range.1,
        v.supported,
      )
      refl

-- Validate reports no error exactly when the observation keeps the contract: an id, a session id and a
-- source that are not empty, a type and a severity that are specified, a confidence in [0, 1], and
-- schema version 1.
pub validate_iff : (o : Observation) → (validate o ≡ []) ↔ IsValid o
validate_iff o = (validate-IsValid o, IsValid-validate o)

when_valid_lem :
    (o p : Observation) (errs : List ValidationError)
    → when_valid o errs ≡ inr p
    → (errs ≡ []) × (p ≡ o)
when_valid_lem o p [] h = (refl, ground arith)
when_valid_lem o p (e ∷ errs) h = ground arith

-- What New returns keeps the contract, is the caller's observation with its system fields filled in,
-- and has the current schema version whatever the caller put there.
pub new_ok :
    (fresh : String) (now : Time) (o p : Observation)
    → new fresh now (some o) ≡ inr p
    → IsValid p × (p ≡ fill_system fresh now o)
unfolding new
new_ok fresh now o p h =
    let (valid, same) = when_valid_lem _ p _ h in
    (subst IsValid (sym same) (validate-IsValid _ valid), same)

-- With a fresh id that is not empty, New accepts an observation that has a session id, a source, a
-- type, a severity and a confidence in [0, 1], whatever its id, time and schema version are, and
-- returns it with its system fields filled in.
pub new_accepts :
    (fresh : String) (now : Time) (o : Observation)
    → str_eq fresh "" ≡ false
    → str_eq o.session_id "" ≡ false
    → str_eq o.source "" ≡ false
    → o.type ≢ EvidenceType.unspecified_type
    → o.severity ≢ Severity.unspecified_severity
    → (bits : ℕ) × (o.confidence ≡ within bits)
    → new fresh now (some o) ≡ inr (fill_system fresh now o)
unfolding new
new_accepts fresh now o drawn session source typed severe ranged =
    let id_lem : str_eq (fill_system fresh now o).id "" ≡ false =
      elim (Bool-cases (str_eq o.id "")) [ inl e ↦ rw e drawn | inr e ↦ rw e e ] in
    let valid : IsValid (fill_system fresh now o) = record {
      has_id = id_lem;
      has_session_id = session;
      has_source = source;
      has_type = typed;
      has_severity = severe;
      in_range = ranged;
      supported = refl;
    } in
    rw (IsValid-validate _ valid) refl
