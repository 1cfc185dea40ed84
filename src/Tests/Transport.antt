-- ===== src/Tests/Transport.antt =====
-- The theorems on the consumers and the replay at concrete inputs.
use microservice_diagnosis.Prelude.{
  ap, sym, ◌∙◌, append_nil, filter, leb, Option, none, ℕ, zero, suc, ltb, map, ◌+◌, ◌≤◌, pos, true,
  false, some, List, [], ◌∷◌, ◌++◌, length, ◌≡◌, inr, refl, arith,
}
use microservice_diagnosis.Bus.Consumer.{Message, message, Consumer, Progress, consume}
use microservice_diagnosis.Bus.Consumer.AtLeastOnce.{Run, consume-Run}
use microservice_diagnosis.Bus.Channel.{
  capacity, Forwarder, Subscription, subscribed, fetch, send, commit, close, Reach, here, next,
}
use microservice_diagnosis.Bus.Channel.Backpressure.{all_committed, committed-le-received}
use microservice_diagnosis.Bus.Channel.Shutdown.{IsBlocked, start, closes, Unattended-IsBlocked}
use microservice_diagnosis.Bus.Replay.{
  Batch, Position, absolute, at_start, Connection, Cluster, partitions, partitions_of, sort, replay,
}
use microservice_diagnosis.Bus.Replay.Delivered.{until_empty}
use microservice_diagnosis.Bus.Replay.Partitions.{Reports, ReadsLog, replay-Reports}

abbrev message_at : ℕ → Message
message_at n = record { topic = "mfdh.commands.log"; partition = 0; offset = n; value = "{}" }

-- The second call of the handler fails.
abbrev failing_consumer : Consumer
failing_consumer = record { handle = λ m n. ltb n 2; commit = λ m n. true }

abbrev no_progress : Progress
no_progress = record { calls = 0; handled = []; committed = [] }

abbrev three_messages : List Message
three_messages = message_at 0 ∷ message_at 1 ∷ message_at 2 ∷ []

consume_example :
    Run
      (map message three_messages)
      no_progress
      (consume failing_consumer (map message three_messages) no_progress)
consume_example = consume-Run failing_consumer (map message three_messages) no_progress

abbrev one_in_channel : Subscription
one_in_channel = all_committed (message_at 0 ∷ [])

reached : Reach subscribed one_in_channel
reached =
    next
      (next (next here (fetch subscribed (message_at 0) refl))
        (send _ (message_at 0) refl (omega arith)))
      (commit _ (message_at 0) refl)

channel_example :
    (one_in_channel.sent ≡ one_in_channel.received ++ one_in_channel.buffer)
    × (length one_in_channel.buffer ≤ capacity)
    × (length one_in_channel.committed ≤ length one_in_channel.received + capacity)
channel_example = committed-le-received {c = one_in_channel} reached

abbrev copies : ℕ → List Message
copies zero = []
copies (suc n) = message_at n ∷ copies n

abbrev full_channel : Subscription
full_channel = record subscribed {
  forwarder = Forwarder.sending (message_at 100);
  buffer = copies 100;
}

full_channel-IsBlocked : IsBlocked (message_at 100) full_channel
full_channel-IsBlocked = record { holds = refl; full = refl; running = refl }

blocked_example : IsBlocked (message_at 100) (record full_channel { service_cancelled = true })
blocked_example =
    Unattended-IsBlocked (message_at 100) full_channel-IsBlocked (closes start (close full_channel))

-- Two partitions, listed in the other order, each with the offsets 4 to 6.
abbrev batch : List Message → Batch
batch ms = record { no_deadline = false; messages = ms; broken = false; close_fails = false }

abbrev stored : List Message
stored = message_at 4 ∷ message_at 5 ∷ message_at 6 ∷ []

abbrev batches_from : Position → List Batch
batches_from at_start = batch (message_at 4 ∷ message_at 5 ∷ []) ∷ batch (message_at 6 ∷ []) ∷ []
batches_from (absolute n) = batch (filter (λ m. leb n m.offset) stored) ∷ []

abbrev cluster : Cluster
cluster = record {
  brokers = "kafka:9092" ∷ [];
  describe = λ t. some (
      record { name = "mfdh.events"; failed = false; partitions = (1, false) ∷ (0, false) ∷ [] }
      ∷ []);
  dial = λ broker t p. some (record { seek_fails = λ position. false; batches = batches_from });
}

abbrev read_of : Position → Option Connection → List Message
read_of position none = []
read_of position (some c) = until_empty (c.batches position)

one_batch : (ms : List Message) → until_empty (batch ms ∷ []) ≡ ms
one_batch [] = refl
one_batch (m ∷ ms) = ap (λ l. m ∷ l) (append_nil ms)

cluster-ReadsLog : ReadsLog cluster "mfdh.events" (λ p. stored)
cluster-ReadsLog = record {
  from_start = λ b p c h. ap (read_of at_start) (sym h);
  from_offset = λ b p c n h. ap (read_of (absolute n)) (sym h) ∙ one_batch _;
}

known : partitions "mfdh.events" (cluster.describe "mfdh.events") ≡ inr (1 ∷ 0 ∷ [])
unfolding partitions_of
known = refl

replay_example :
    Reports
      (pos 5)
      (λ p. stored)
      (replay cluster (λ ms m. true) "mfdh.events" (pos 5)).0
      (sort (1 ∷ 0 ∷ []))
      (replay cluster (λ ms m. true) "mfdh.events" (pos 5)).1
      (replay cluster (λ ms m. true) "mfdh.events" (pos 5)).2
replay_example =
    replay-Reports cluster (λ ms m. true) "mfdh.events" (pos 5) (1 ∷ 0 ∷ []) (λ p. stored)
      cluster-ReadsLog refl refl known
