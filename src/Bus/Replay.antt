-- ===== src/Bus/Replay.antt =====
-- internal/bus/replay.go: Replay, its list of partitions and replayPartition. What the brokers answer
-- is a parameter: the metadata of the topics, and for a partition the batches that its leader hands
-- out from a position one after the other; behind the last of them every batch is empty.
pub mod Delivered
pub mod Partitions
use microservice_diagnosis.Prelude.{
  ℕ, ◌+◌, ℤ, pos, negsuc, String, Bool, true, false, not, Option, none, some, List, [], ◌∷◌, ◌++◌,
  leb, sort_by, str_eq, ◌⊎◌, inl, inr, suc, zero, if◌then◌else◌,
}
use microservice_diagnosis.Bus.Consumer.{Message}

pub data ReplayError : Type 0 where
  empty_topic invalid_start metadata_failed topic_failed topic_not_found : ReplayError
  partition_failed dial_failed seek_failed deadline_failed read_failed close_failed :
      ℕ → ReplayError
  handler_failed : Message → ReplayError

-- What one round of ReadBatch meets: whether SetReadDeadline fails, the messages, whether the read
-- behind them fails otherwise than by the end of the batch or by time, and whether Close fails so.
pub record Batch : Type 0 where
  pub no_deadline : Bool
  pub messages : List Message
  pub broken : Bool
  pub close_fails : Bool

-- Where a partition is read from: an offset, by SeekAbsolute, or its start, by SeekStart.
pub data Position : Type 0 where
  absolute : ℕ → Position
  at_start : Position

-- Whether Seek fails, and the batches that are read from a position.
pub record Connection : Type 0 where
  pub seek_fails : Position → Bool
  pub batches : Position → List Batch

pub record TopicMetadata : Type 0 where
  pub name : String
  pub failed : Bool
  -- A partition's id, and whether it comes with an error.
  pub partitions : List (ℕ × Bool)

-- `describe` is the answer to a metadata request, and `dial` what DialLeader returns at a broker.
pub record Cluster : Type 0 where
  pub brokers : List String
  pub describe : String → Option (List TopicMetadata)
  pub dial : String → String → ℕ → Option Connection

pub record ReplayResult : Type 0 where
  pub partition : ℕ
  pub from : ℤ
  pub last_offset : ℕ
  pub count : ℕ

-- Whether the handler takes a message with no error, by the messages that it has taken before.
abbrev pub Handler : Type 0
Handler = List Message → Message → Bool

-- The messages that the handler has taken, and the result of the partition that is read.
pub record Delivery : Type 0 where
  pub handled : List Message
  pub result : ReplayResult

abbrev pub delivered : Message → Delivery → Delivery
delivered m d = record {
  handled = d.handled ++ m ∷ [];
  result = record d.result { last_offset = m.offset; count = d.result.count + 1 };
}

-- The inner loop of replayPartition; the message is one whose handler has failed.
unfoldable pub read_messages : Handler → List Message → Delivery → Option Message × Delivery
read_messages accepts [] d = (none, d)
read_messages accepts (m ∷ ms) d =
    let rest = read_messages accepts ms (delivered m d) in
    if accepts d.handled m then rest else (some m, d)

abbrev pub is_empty : List Message → Bool
is_empty [] = true
is_empty (m ∷ ms) = false

abbrev pub after_read :
    ℕ
    → Batch
    → Option Message × Delivery
    → Option ReplayError × Delivery
    → Option ReplayError × Delivery
after_read p b (some m, d) rest = (some (handler_failed m), d)
after_read p b (none, d) rest =
    if b.broken
    then (some (read_failed p), d)
    else if is_empty b.messages
    then (none, d)
    else if b.close_fails
    then (some (close_failed p), d)
    else rest

-- The outer loop of replayPartition.
unfoldable pub read_batches : Handler → ℕ → List Batch → Delivery → Option ReplayError × Delivery
read_batches accepts p [] d = (none, d)
read_batches accepts p (b ∷ bs) d =
    let read = read_messages accepts b.messages d in
    let rest = read_batches accepts p bs read.1 in
    if b.no_deadline then (some (deadline_failed p), d) else after_read p b read rest

-- The first broker that dials the leader.
unfoldable pub dial_leader : Cluster → List String → String → ℕ → Option Connection
dial_leader k [] topic p = none
dial_leader k (b ∷ bs) topic p = elim (k.dial b topic p) [
  | some c ↦ some c
  | none ↦ dial_leader k bs topic p
]

abbrev pub undelivered : ℕ → ℤ → List Message → Delivery
undelivered p from handled = record {
  handled = handled;
  result = record { partition = p; from = from; last_offset = 0; count = 0 };
}

-- The switch on opts.From; FirstOffset is -2.
abbrev pub position_of : ℤ → Option Position
position_of (pos n) = some (absolute n)
position_of (negsuc (suc zero)) = some at_start
position_of (negsuc n) = none

abbrev pub seek_and_read :
    Handler → ℕ → ℤ → Connection → Option Position → List Message → Option ReplayError × Delivery
seek_and_read accepts p from c none handled = (some invalid_start, undelivered p from handled)
seek_and_read accepts p from c (some position) handled =
    if c.seek_fails position
    then (some (seek_failed p), undelivered p from handled)
    else read_batches accepts p (c.batches position) (undelivered p from handled)

abbrev pub after_dial :
    Handler → ℕ → ℤ → Option Connection → List Message → Option ReplayError × Delivery
after_dial accepts p from none handled = (some (dial_failed p), undelivered p from handled)
after_dial accepts p from (some c) handled =
    seek_and_read accepts p from c (position_of from) handled

unfoldable pub replay_partition :
    Cluster → Handler → String → ℤ → ℕ → List Message → Option ReplayError × Delivery
replay_partition k accepts topic from p handled =
    after_dial accepts p from (dial_leader k k.brokers topic p) handled

-- The error, the results so far, and the messages that the handler has taken.
abbrev pub Replayed : Type 0
Replayed = Option ReplayError × List ReplayResult × List Message

abbrev pub with_result : ReplayResult → Replayed → Replayed
with_result r (e, rs, handled) = (e, r ∷ rs, handled)

abbrev pub after_partition : Option ReplayError × Delivery → Replayed → Replayed
after_partition (some e, d) rest = (some e, [], d.handled)
after_partition (none, d) rest = with_result d.result rest

-- The loop of Replay over the sorted partitions.
unfoldable pub replay_each : Cluster → Handler → String → ℤ → List ℕ → List Message → Replayed
replay_each k accepts topic from [] handled = (none, [], handled)
replay_each k accepts topic from (p ∷ ps) handled =
    let one = replay_partition k accepts topic from p handled in
    let rest = replay_each k accepts topic from ps one.1.handled in after_partition one rest

-- `sort.Ints`.
abbrev pub sort : List ℕ → List ℕ
sort ps = sort_by leb ps

-- `partitions`: the ids of the first topic with the name.
abbrev pub ids_of : List (ℕ × Bool) → ReplayError ⊎ List ℕ
ids_of [] = inr []
ids_of ((p, failed) ∷ ps) =
    let rest = ids_of ps in
    if failed then inl (partition_failed p) else elim rest [ inl e ↦ inl e | inr qs ↦ inr (p ∷ qs) ]

unfoldable pub partitions_of : String → List TopicMetadata → ReplayError ⊎ List ℕ
partitions_of topic [] = inl topic_not_found
partitions_of topic (t ∷ ts) =
    let rest = partitions_of topic ts in
    if str_eq t.name topic
    then (if t.failed then inl topic_failed else ids_of t.partitions)
    else rest

abbrev pub partitions : String → Option (List TopicMetadata) → ReplayError ⊎ List ℕ
partitions topic none = inl metadata_failed
partitions topic (some ts) = partitions_of topic ts

abbrev pub invalid_from : ℤ → Bool
invalid_from (pos n) = false
invalid_from (negsuc (suc zero)) = false
invalid_from (negsuc n) = true

abbrev pub replay_sorted : Cluster → Handler → String → ℤ → ReplayError ⊎ List ℕ → Replayed
replay_sorted k accepts topic from (inl e) = (some e, [], [])
replay_sorted k accepts topic from (inr ps) = replay_each k accepts topic from (sort ps) []

-- `Replay`, with a handler that is not nil.
unfoldable pub replay : Cluster → Handler → String → ℤ → Replayed
replay k accepts topic from =
    if str_eq topic ""
    then (some empty_topic, [], [])
    else if invalid_from from
    then (some invalid_start, [], [])
    else replay_sorted k accepts topic from (partitions topic (k.describe topic))
