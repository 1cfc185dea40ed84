-- ===== src/Agent/Observation/Codec.antt =====
-- internal/observation/observation.go: ToJSON and FromJSON, and internal/bus/observation.go:
-- ObservationMessage and DecodeObservation. protojson and proto are codecs outside: a codec may
-- refuse an observation, and what it reads is what it has written.
pub mod RoundTrip
use microservice_diagnosis.Prelude.{
  String, Option, none, some, List, [], ◌∷◌, ◌⊎◌, inl, inr, ◌≡◌, format_int,
}
use microservice_diagnosis.Store.Rows.{Time}
use microservice_diagnosis.Agent.Observation.{
  Observation, ValidationError, nil_observation, validate, when_valid,
}
use microservice_diagnosis.Bus.Message.{Envelope}

pub record Codec : Type 0 where
  pub marshal : Observation → Option String
  pub unmarshal : String → Option Observation

-- What the documentation of a codec promises of an observation: it reads what it has written.
pub record IsLossless (c : Codec) (o : Observation) : Type 0 where
  pub unmarshal-marshal : (text : String) → c.marshal o ≡ some text → c.unmarshal text ≡ some o

pub data CodecError : Type 0 where
  unmarshal_failed marshal_failed : CodecError
  invalid : List ValidationError → CodecError

abbrev marshalled : Option String → CodecError ⊎ String
marshalled none = inl marshal_failed
marshalled (some text) = inr text

-- `ToJSON`; `none` is a nil observation.
unfoldable pub to_json : Codec → Option Observation → CodecError ⊎ String
to_json c none = inl (invalid (nil_observation ∷ []))
to_json c (some o) = marshalled (c.marshal o)

abbrev or_invalid : List ValidationError ⊎ Observation → CodecError ⊎ Observation
or_invalid (inl errs) = inl (invalid errs)
or_invalid (inr o) = inr o

abbrev checked : Option Observation → CodecError ⊎ Observation
checked none = inl unmarshal_failed
checked (some o) = or_invalid (when_valid o (validate o))

-- `FromJSON`, which DecodeObservation of internal/bus repeats over the other codec.
unfoldable pub from_json : Codec → String → CodecError ⊎ Observation
from_json c text = checked (c.unmarshal text)

unfoldable pub decode_observation : Codec → Envelope → CodecError ⊎ Observation
decode_observation c m = checked (c.unmarshal m.value)

unfoldable pub envelope_of : Observation → String → Envelope
envelope_of o payload = record {
  topic = "";
  partition = 0;
  offset = 0;
  key = o.session_id;
  value = payload;
  headers =
      ("content-type", "application/x-protobuf")
      ∷ ("mfdh-source", o.source)
      ∷ ("mfdh-session-id", o.session_id)
      ∷ ("mfdh-schema-version", format_int o.schema_version)
      ∷ [];
  time = o.timestamp;
}

abbrev enveloped : Observation → Option String → CodecError ⊎ Envelope
enveloped o none = inl marshal_failed
enveloped o (some payload) = inr (envelope_of o payload)

abbrev unless_errors : List ValidationError → CodecError ⊎ Envelope → CodecError ⊎ Envelope
unless_errors [] m = m
unless_errors (e ∷ errs) m = inl (invalid (e ∷ errs))

-- `ObservationMessage`.
unfoldable pub observation_message : Codec → Observation → CodecError ⊎ Envelope
unfolding envelope_of
observation_message c o = unless_errors (validate o) (enveloped o (c.marshal o))
