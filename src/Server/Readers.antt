-- ===== src/Server/Readers.antt =====
-- internal/server/event_loop.go: the start of Run, which skips the backlog of each topic's consumer
-- group, then makes a reader for each topic, and the choice of the reader that an offset is committed
-- with.
pub mod Own
use microservice_diagnosis.Prelude.{
  String, ℤ, pos, negsuc, Bool, Option, none, some, List, [], ◌∷◌, ◌++◌, map, find?, str_eq,
}
use microservice_diagnosis.Bus.Topic.{group_id}
use microservice_diagnosis.Bus.Consumer.{Message}
use microservice_diagnosis.Bus.Subscribe.{ReaderConfig}

-- The configuration of the reader of a topic.
abbrev pub reader_of : List String → String → ReaderConfig
reader_of brokers topic = record {
  brokers = brokers;
  topic = topic;
  group_id = group_id "orchestrator" topic;
  min_bytes = pos 1;
  max_bytes = pos 1048576;
  max_wait = pos 500000000;
  commit_interval = pos 0;
  start_offset = negsuc 1;
  heartbeat_interval = pos 0;
  session_timeout = pos 0;
  rebalance_timeout = pos 0;
  join_group_backoff = pos 0;
  dial_timeout = pos 0;
}

-- A call of skipBacklogFast, by the group and the topic, or a reader that joins its group.
pub data Start : Type 0 where
  skipped : String → String → Start
  joined : ReaderConfig → Start

-- What Run does before its goroutines start, in order; an error of skipBacklogFast is logged.
unfoldable pub start : List String → List String → List Start
start brokers topics =
    map (λ t. skipped (group_id "orchestrator" t) t) topics
    ++ map (λ t. joined (reader_of brokers t)) topics

abbrev pub readers : List String → List String → List ReaderConfig
readers brokers topics = map (reader_of brokers) topics

abbrev pub first_reader : List ReaderConfig → Option ReaderConfig
first_reader [] = none
first_reader (r ∷ rs) = some r

abbrev pub or_first : List ReaderConfig → Option ReaderConfig → Option ReaderConfig
or_first rs none = first_reader rs
or_first rs (some r) = some r

-- `commitOffset`: the reader that CommitMessages is called on.
unfoldable pub commit_reader : List ReaderConfig → Message → Option ReaderConfig
commit_reader rs m = or_first rs (find? (λ r. str_eq r.topic m.topic) rs)
