-- ===== src/Bus/Subscribe.antt =====
-- internal/bus/consumer.go: NewConsumer. The reader of kafka-go is the configuration that it is made
-- with; strings.TrimSpace and strings.ToLower are arguments, as in Bus.Config.
pub mod Sound
use microservice_diagnosis.Prelude.{String, ℤ, pos, List, Option, none, some}
use microservice_diagnosis.Bus.Config.{Config, ConfigError, with_defaults, validate}
use microservice_diagnosis.Bus.Consumer
use microservice_diagnosis.Bus.Consumer.{ConsumerConfig, SubscriptionError, start_of}

-- kafka.ReaderConfig, as far as the program sets it; a field that it leaves out is zero.
pub record ReaderConfig : Type 0 where
  pub brokers : List String
  pub topic : String
  pub group_id : String
  pub min_bytes : ℤ
  pub max_bytes : ℤ
  pub max_wait : ℤ
  pub commit_interval : ℤ
  pub start_offset : ℤ
  pub heartbeat_interval : ℤ
  pub session_timeout : ℤ
  pub rebalance_timeout : ℤ
  pub join_group_backoff : ℤ
  pub dial_timeout : ℤ

pub data Subscribing : Type 0 where
  bad_config : ConfigError → Subscribing
  bad_subscription : SubscriptionError → Subscribing
  reading : ReaderConfig → Subscribing

abbrev pub reader_config : Config → ConsumerConfig → ReaderConfig
reader_config cfg cc = record {
  brokers = cfg.brokers;
  topic = cc.topic;
  group_id = cc.group_id;
  min_bytes = cfg.min_bytes;
  max_bytes = cfg.max_bytes;
  max_wait = cfg.max_wait;
  commit_interval = pos 0;
  start_offset = start_of cc;
  heartbeat_interval = cfg.heartbeat_interval;
  session_timeout = cfg.session_timeout;
  rebalance_timeout = cfg.rebalance_timeout;
  join_group_backoff = cfg.join_group_backoff;
  dial_timeout = cfg.dial_timeout;
}

-- Once the configuration is valid.
abbrev pub check_subscription : Config → ConsumerConfig → Option SubscriptionError → Subscribing
check_subscription cfg cc (some e) = bad_subscription e
check_subscription cfg cc none = reading (reader_config cfg cc)

abbrev pub check_config : Config → ConsumerConfig → Option ConfigError → Subscribing
check_config cfg cc (some e) = bad_config e
check_config cfg cc none = check_subscription cfg cc (Consumer.validate cc)

unfoldable pub new_consumer :
    (String → String) → (String → String) → Config → ConsumerConfig → Subscribing
new_consumer trim clean cfg cc =
    let full = with_defaults cfg in check_config full cc (validate trim clean full)
