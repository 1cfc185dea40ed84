-- ===== src/Bus/Consumer.antt =====
-- internal/bus/consumer.go: ConsumerConfig.Validate and the loop of Consume. A Kafka reader answers
-- the calls of FetchMessage one after the other; the answers so far are a list, and at its end the
-- reader blocks.
pub mod AtLeastOnce
use microservice_diagnosis.Prelude.{
  ℕ, zero, suc, ◌+◌, ℤ, pos, negsuc, String, Bool, true, false, List, [], ◌∷◌, ◌++◌, Option, none,
  some, str_eq, if◌then◌else◌,
}

-- The fields of bus.Message that place it in a log, and its payload.
pub record Message : Type 0 where
  pub topic : String
  pub partition : ℕ
  pub offset : ℕ
  pub value : String

pub data Fetched : Type 0 where
  message : Message → Fetched
  cancelled unreadable : Fetched

-- How Consume ends; `blocked` is a reader that still waits for a message.
pub data Ending : Type 0 where
  blocked stopped fetch_failed : Ending
  handler_failed commit_failed : Message → Ending

-- Which calls of the handler and of CommitMessages succeed, by the calls made before.
pub record Consumer : Type 0 where
  pub handle : Message → ℕ → Bool
  pub commit : Message → ℕ → Bool

-- The messages that the handler has taken with no error, and those whose commit has returned none.
pub record Progress : Type 0 where
  pub calls : ℕ
  pub handled : List Message
  pub committed : List Message

abbrev pub note_handled : Message → Progress → Progress
note_handled m p = record p { calls = p.calls + 1; handled = p.handled ++ m ∷ [] }

abbrev pub note_committed : Message → Progress → Progress
note_committed m p = record p { calls = p.calls + 1; committed = p.committed ++ m ∷ [] }

-- `Consume`, with a handler that is not nil.
unfoldable pub consume : Consumer → List Fetched → Progress → Ending × Progress
consume c [] p = (blocked, p)
consume c (cancelled ∷ fs) p = (stopped, p)
consume c (unreadable ∷ fs) p = (fetch_failed, p)
consume c (message m ∷ fs) p =
    let taken = note_handled m p in
    let rest = consume c fs (note_committed m taken) in
    if c.handle m p.calls
    then (if c.commit m taken.calls then rest else (commit_failed m, taken))
    else (handler_failed m, p)

pub record ConsumerConfig : Type 0 where
  pub topic : String
  pub group_id : String
  pub start_offset : ℤ

pub data SubscriptionError : Type 0 where
  empty_topic empty_group_id invalid_start_offset : SubscriptionError

-- 0, FirstOffset (-2) and LastOffset (-1).
abbrev pub is_start_offset : ℤ → Bool
is_start_offset (pos zero) = true
is_start_offset (negsuc zero) = true
is_start_offset (negsuc (suc zero)) = true
is_start_offset _ = false

unfoldable pub validate : ConsumerConfig → Option SubscriptionError
validate c =
    if str_eq c.topic ""
    then some empty_topic
    else if str_eq c.group_id ""
    then some empty_group_id
    else if is_start_offset c.start_offset
    then none
    else some invalid_start_offset

-- The offset that NewConsumer hands to the reader.
unfoldable pub start_of : ConsumerConfig → ℤ
start_of c = first_if_zero c.start_offset
  where
    first_if_zero : ℤ → ℤ
    first_if_zero (pos zero) = negsuc 1
    first_if_zero start = start
