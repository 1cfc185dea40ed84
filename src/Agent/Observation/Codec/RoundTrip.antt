-- ===== src/Agent/Observation/Codec/RoundTrip.antt =====
-- An observation comes back from JSON and from the bus as it was, and only a valid one comes back.
use microservice_diagnosis.Prelude.{
  ℕ, String, Option, none, some, List, [], ◌∷◌, ◌≡◌, ◌↔◌, inr, refl, ap, sym, subst, ◌∙◌, arith,
  format_int,
}
use microservice_diagnosis.Prelude.Dict.{lookup, NodupKeys}
use microservice_diagnosis.Agent.Observation.{Observation, ValidationError, validate, when_valid}
use microservice_diagnosis.Agent.Observation.Contract.{IsValid, validate_iff}
use microservice_diagnosis.Agent.Observation.Codec.{
  Codec, IsLossless, from_json, decode_observation, envelope_of, checked, observation_message,
  or_invalid, enveloped, unless_errors,
}
use microservice_diagnosis.Bus.Message.{Envelope, to_kafka_message, from_kafka_message}
use microservice_diagnosis.Bus.Message.Wire.{placed, from_kafka_message-to_kafka_message}

from_check :
    (o p : Observation) (errs : List ValidationError)
    → or_invalid (when_valid o errs) ≡ inr p
    → (errs ≡ []) × (p ≡ o)
from_check o p [] h = (refl, ground arith)
from_check o p (e ∷ errs) h = ground arith

checked_lem :
    (r : Option Observation) (o : Observation) → checked r ≡ inr o → (r ≡ some o) × IsValid o
checked_lem none o h = ground arith
checked_lem (some q) o h =
    let (valid, same) = from_check q o (validate q) h in
    (ap some (sym same), subst IsValid (sym same) ((validate_iff q).0 valid))

valid_checked : (o : Observation) → IsValid o → checked (some o) ≡ inr o
valid_checked o v = rw ((validate_iff o).1 v) refl

-- FromJSON returns an observation exactly when the codec reads it from the text and it keeps the
-- contract of an observation.
pub from_json_iff :
    (c : Codec) (text : String) (o : Observation)
    → (from_json c text ≡ inr o) ↔ ((c.unmarshal text ≡ some o) × IsValid o)
unfolding from_json
from_json_iff c text o =
    (checked_lem (c.unmarshal text) o, λ h. ap checked h.0 ∙ valid_checked o h.1)

message_lem :
    (o : Observation) (m : Envelope) (payload : Option String) (errs : List ValidationError)
    → unless_errors errs (enveloped o payload) ≡ inr m
    → (text : String) × (errs ≡ []) × (payload ≡ some text) × (m ≡ envelope_of o text)
message_lem o m none [] h = ground arith
message_lem o m (some text) [] h = (text, refl, refl, ground arith)
message_lem o m payload (e ∷ errs) h = ground arith

envelope_of-NodupKeys :
    (o : Observation) (payload : String) → NodupKeys (envelope_of o payload).headers
unfolding envelope_of lookup
envelope_of-NodupKeys o payload = (refl, (refl, (refl, (refl, tt))))

-- The envelope as a consumer of the topic `t` reads it, at the place that the broker gave it.
abbrev pub read_back : Envelope → String → ℕ → ℕ → Envelope
read_back m t p offset =
    from_kafka_message (placed p offset (to_kafka_message (record m { topic = t })))

read_back-envelope_of :
    (o : Observation) (payload t : String) (p offset : ℕ)
    → read_back (envelope_of o payload) t p offset
      ≡ record (envelope_of o payload) { topic = t; partition = p; offset = offset }
read_back-envelope_of o payload t p offset =
    from_kafka_message-to_kafka_message p offset (record (envelope_of o payload) { topic = t })
      (envelope_of-NodupKeys o payload)

-- The headers that a consumer routes by.
pub record IsRouted (o : Observation) (m : Envelope) : Type 0 where
  pub keyed : m.key ≡ o.session_id
  pub by_source : lookup "mfdh-source" m.headers ≡ some o.source
  pub by_session : lookup "mfdh-session-id" m.headers ≡ some o.session_id
  pub by_version : lookup "mfdh-schema-version" m.headers ≡ some "1"

envelope_of-IsRouted :
    (o : Observation) (payload t : String) (p offset : ℕ)
    → IsValid o
    → IsRouted o (record (envelope_of o payload) { topic = t; partition = p; offset = offset })
unfolding envelope_of lookup format_int
envelope_of-IsRouted o payload t p offset v = record {
  keyed = refl;
  by_source = refl;
  by_session = refl;
  by_version = rw v.supported refl;
}

-- With a codec that reads what it has written of it, an observation that ObservationMessage accepts keeps
-- the contract, and DecodeObservation gives it back unchanged from its message as a consumer of any
-- topic reads it, wherever the broker has placed it; the message has the session id as its key, and
-- the source, the session id and the schema version 1 as its headers.
pub decode_observation-observation_message :
    (c : Codec) (o : Observation) (m : Envelope) (t : String) (p offset : ℕ)
    → IsLossless c o
    → observation_message c o ≡ inr m
    → IsValid o
      × (decode_observation c (read_back m t p offset) ≡ inr o)
      × IsRouted o (read_back m t p offset)
unfolding observation_message decode_observation
decode_observation-observation_message c o m t p offset l h =
    let (text, accepted, written, same) = message_lem o m (c.marshal o) (validate o) h in
    let v : IsValid o = (validate_iff o).0 accepted in
    let back : read_back m t p offset
        ≡ record (envelope_of o text) { topic = t; partition = p; offset = offset } =
      ap (λ e. read_back e t p offset) same ∙ read_back-envelope_of o text t p offset in
    (
      v,
      ap (λ e. checked (c.unmarshal e.value)) back
          ∙ ap checked (l.unmarshal-marshal text written)
          ∙ valid_checked o v,
      subst (IsRouted o) (sym back) (envelope_of-IsRouted o text t p offset v),
    )
