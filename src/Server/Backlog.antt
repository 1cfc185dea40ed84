-- ===== src/Server/Backlog.antt =====
-- internal/server/event_loop.go: skipBacklogFast, and the calls of it with which Run starts. The
-- answers of the Kafka client are a parameter.
pub mod Moves
pub mod Retries
use microservice_diagnosis.Prelude.{
  ℕ, zero, suc, ◌+◌, ◌-◌, ℤ, pos, negsuc, String, Bool, true, false, not, Option, none, some, List,
  [], ◌∷◌, ◌++◌, map, ltb, leb, ◌==◌, str_eq, any, ◌||◌, ◌⊎◌, inl, inr, if◌then◌else◌,
}

pub record PartitionOffset : Type 0 where
  pub partition : ℕ
  pub failed : Bool
  pub last_offset : ℕ

-- The group's commit of one offset per partition, with GenerationID -1.
pub record CommitRequest : Type 0 where
  pub group : String
  pub topic : String
  pub offsets : List (ℕ × ℕ)

-- What the client answers: to a metadata request the topics with their partitions, to ConsumerOffsets
-- the offset committed for a partition, to ListOffsets the last offsets, and to the nth OffsetCommit
-- whether each partition has an error. `ticks` is how often the ticker is selected before the retry
-- context is done.
pub record Client : Type 0 where
  pub metadata : Option (List (String × List ℕ))
  pub consumer_offsets : String → String → Option (List (ℕ × ℤ))
  pub list_offsets : String → List ℕ → Option (List PartitionOffset)
  pub offset_commit : ℕ → CommitRequest → Option (List Bool)
  pub ticks : ℕ

pub data SkipError : Type 0 where
  metadata_failed committed_failed latest_failed : SkipError
  partition_failed : ℕ → SkipError

-- How skipBacklogFast ends.
pub data Outcome : Type 0 where
  failed : SkipError → Outcome
  no_partitions within_threshold left_for_backfill committed timed_out : Outcome

-- The error that it returns.
abbrev pub error_of : Outcome → Option SkipError
error_of (failed e) = some e
error_of _ = none

-- defaultBacklogSkip.
abbrev pub default_backlog_skip : ℕ
default_backlog_skip = 10000

unfoldable pub partitions_of : String → List (String × List ℕ) → List ℕ
partitions_of topic [] = []
partitions_of topic ((name, ps) ∷ ts) =
    let rest = partitions_of topic ts in if str_eq name topic then ps ++ rest else rest

-- The value of a key in a map of Go, with the zero value for a key that is missing.
abbrev pub lookup : {A : Type 0} → A → ℕ → List (ℕ × A) → A
lookup d p [] = d
lookup d p ((q, a) ∷ rest) = let later = lookup d p rest in if p == q then a else later

-- `po.LastOffset - c`, from the start where c is -1; a negative difference is 0 here, since it is
-- only compared with a lag that is not negative.
abbrev pub lag_of : ℕ → ℤ → ℕ
lag_of last (pos c) = last - c
lag_of last (negsuc zero) = last
lag_of last (negsuc (suc n)) = last + (n + 2)

abbrev pub is_uncommitted : ℤ → Bool
is_uncommitted (negsuc zero) = true
is_uncommitted _ = false

-- The variables that the loop over the last offsets fills.
pub record Scan : Type 0 where
  pub lag : ℕ
  pub uncommitted : Bool
  pub last_by_partition : List (ℕ × ℕ)

abbrev pub scanned : List (ℕ × ℤ) → PartitionOffset → Scan → Scan
scanned offsets po s =
    let c = lookup (pos 0) po.partition offsets in
    record {
      lag = if ltb s.lag (lag_of po.last_offset c) then lag_of po.last_offset c else s.lag;
      uncommitted = s.uncommitted || is_uncommitted c;
      last_by_partition = (po.partition, po.last_offset) ∷ s.last_by_partition;
    }

unfoldable pub scan : List (ℕ × ℤ) → List PartitionOffset → Scan → SkipError ⊎ Scan
scan offsets [] s = inr s
scan offsets (po ∷ latest) s =
    let rest = scan offsets latest (scanned offsets po s) in
    if po.failed then inl (partition_failed po.partition) else rest

-- The request that moves the group to the last offset of each partition.
abbrev pub to_tail : String → String → List ℕ → List (ℕ × ℕ) → CommitRequest
to_tail group topic ps last = record {
  group = group;
  topic = topic;
  offsets = map (λ p. (p, lookup 0 p last)) ps;
}

-- `allCommitted`, after a commit with no error.
abbrev pub all_committed : Option (List Bool) → Bool
all_committed none = false
all_committed (some errors) = not (any (λ e. e) errors)

-- The loop of commits, from the round `i` with `ticks` ticks left.
unfoldable pub retry : Client → CommitRequest → ℕ → ℕ → Outcome × List CommitRequest
retry k req zero i =
    if all_committed (k.offset_commit i req) then (committed, req ∷ []) else (timed_out, req ∷ [])
retry k req (suc ticks) i =
    let rest = retry k req ticks (i + 1) in
    if all_committed (k.offset_commit i req) then (committed, req ∷ []) else (rest.0, req ∷ rest.1)

abbrev pub threshold_of : ℕ → ℕ
threshold_of zero = default_backlog_skip
threshold_of (suc n) = suc n

abbrev pub decide :
    Client → String → String → ℕ → List ℕ → SkipError ⊎ Scan → Outcome × List CommitRequest
decide k group topic skip ps (inl e) = (failed e, [])
decide k group topic skip ps (inr s) =
    if leb s.lag (threshold_of skip)
    then (within_threshold, [])
    else if s.uncommitted
    then (left_for_backfill, [])
    else retry k (to_tail group topic ps s.last_by_partition) k.ticks 0

abbrev pub empty_scan : Scan
empty_scan = record { lag = 0; uncommitted = false; last_by_partition = [] }

abbrev pub compare_offsets :
    Client
    → String
    → String
    → ℕ
    → List ℕ
    → Option (List (ℕ × ℤ))
    → Option (List PartitionOffset)
    → Outcome × List CommitRequest
compare_offsets k group topic skip ps none latest = (failed committed_failed, [])
compare_offsets k group topic skip ps (some offsets) none = (failed latest_failed, [])
compare_offsets k group topic skip ps (some offsets) (some latest) =
    decide k group topic skip ps (scan offsets latest empty_scan)

abbrev pub is_empty : List ℕ → Bool
is_empty [] = true
is_empty (p ∷ ps) = false

abbrev pub skip_partitions : Client → String → String → ℕ → List ℕ → Outcome × List CommitRequest
skip_partitions k group topic skip ps =
    if is_empty ps
    then (no_partitions, [])
    else compare_offsets k group topic skip ps (k.consumer_offsets group topic)
        (k.list_offsets topic ps)

abbrev pub skip_described :
    Client → String → String → ℕ → Option (List (String × List ℕ)) → Outcome × List CommitRequest
skip_described k group topic skip none = (failed metadata_failed, [])
skip_described k group topic skip (some ts) =
    skip_partitions k group topic skip (partitions_of topic ts)

-- `skipBacklogFast`, and the commits that it requests.
unfoldable pub skip_backlog_fast : Client → String → String → ℕ → Outcome × List CommitRequest
skip_backlog_fast k group topic skip = skip_described k group topic skip k.metadata
