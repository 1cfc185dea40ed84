-- ===== src/Bus/Message.antt =====
-- internal/bus/message.go and producer.go: the envelope of a message, its translation to and from the
-- type of kafka-go, NewProducer and Publish. A writer of kafka-go is what its calls answer.
pub mod Wire
use microservice_diagnosis.Prelude.{
  ℕ, ℤ, pos, String, Bool, true, false, Option, none, some, List, [], ◌∷◌, ◌++◌, ◌⊎◌, inl, inr,
  str_eq, if◌then◌else◌,
}
use microservice_diagnosis.Prelude.Dict.{Dict, insert}
use microservice_diagnosis.Store.Rows.{Time}
use microservice_diagnosis.Bus.Config.{
  Config, ConfigError, RequiredAcks, invalid_required_acks, with_defaults, validate, required_acks,
}

-- bus.Message; `none` is the zero time.
pub record Envelope : Type 0 where
  pub topic : String
  pub partition : ℕ
  pub offset : ℕ
  pub key : String
  pub value : String
  pub headers : Dict String
  pub time : Option Time

-- kafka.Message, with its headers in their order.
pub record KafkaMessage : Type 0 where
  pub topic : String
  pub partition : ℕ
  pub offset : ℕ
  pub key : String
  pub value : String
  pub headers : List (String × String)
  pub time : Option Time

-- `range m.Headers` visits the entries in an order that Go leaves open: it is that of the list here.
unfoldable pub to_kafka_message : Envelope → KafkaMessage
to_kafka_message m = record {
  topic = m.topic;
  partition = 0;
  offset = 0;
  key = m.key;
  value = m.value;
  headers = m.headers;
  time = m.time;
}

-- The loop over the headers: a later header of a key replaces the earlier ones.
unfoldable pub collect_headers : List (String × String) → Dict String → Dict String
collect_headers [] acc = acc
collect_headers ((k, v) ∷ hs) acc = collect_headers hs (insert k v acc)

unfoldable pub from_kafka_message : KafkaMessage → Envelope
unfolding collect_headers
from_kafka_message m = record {
  topic = m.topic;
  partition = m.partition;
  offset = m.offset;
  key = m.key;
  value = m.value;
  headers = collect_headers m.headers [];
  time = m.time;
}

pub data PublishError : Type 0 where
  empty_topic write_failed : PublishError

-- `Publish`, with whether WriteMessages succeeds: what is on the log afterwards.
unfoldable pub publish :
    Bool → Envelope → List KafkaMessage → Option PublishError × List KafkaMessage
publish writes m log =
    if str_eq m.topic ""
    then (some empty_topic, log)
    else if writes
    then (none, log ++ to_kafka_message m ∷ [])
    else (some write_failed, log)

-- The fields of kafka.Writer that NewProducer sets from its configuration.
pub record Writer : Type 0 where
  pub brokers : List String
  pub batch_size : ℤ
  pub batch_bytes : ℤ
  pub batch_timeout : ℤ
  pub write_timeout : ℤ
  pub acks : RequiredAcks

abbrev writer_of : Config → RequiredAcks → Writer
writer_of c acks = record {
  brokers = c.brokers;
  batch_size = pos 1;
  batch_bytes = c.batch_bytes;
  batch_timeout = c.batch_timeout;
  write_timeout = c.write_timeout;
  acks = acks;
}

abbrev with_acks : Config → Option RequiredAcks → ConfigError ⊎ Writer
with_acks c none = inl invalid_required_acks
with_acks c (some acks) = inr (writer_of c acks)

abbrev unless_invalid : Option ConfigError → ConfigError ⊎ Writer → ConfigError ⊎ Writer
unless_invalid none w = w
unless_invalid (some e) w = inl e

-- `NewProducer`; `trim` is strings.TrimSpace and `clean` strings.ToLower after it.
unfoldable pub new_producer : (String → String) → (String → String) → Config → ConfigError ⊎ Writer
new_producer trim clean cfg =
    let c = with_defaults cfg in
    unless_invalid (validate trim clean c) (with_acks c (required_acks clean c))
