-- ===== src/Bus/Channel.antt =====
-- internal/bus/consumer_channel.go: one subscription of a ConsumerChannel, as the steps of its
-- forwarding goroutine, of the runner that receives, and of whoever ends the subscription. Between
-- two steps the scheduler may run any of them.
pub mod Backpressure
pub mod Shutdown
use microservice_diagnosis.Prelude.{
  ℕ, ◌<◌, Bool, true, false, Option, none, some, List, [], ◌∷◌, ◌++◌, length, ◌≡◌, ◌⊎◌,
}
use microservice_diagnosis.Bus.Consumer.{Message}

-- The capacity of the channel.
abbrev pub capacity : ℕ
capacity = 100

-- What the forwarding goroutine does: it waits for FetchMessage, stands in the handler's select,
-- commits, waits before it consumes again, or has left its loop and closed the channel.
pub data Forwarder : Type 0 where
  fetching backing_off closed : Forwarder
  sending committing : Message → Forwarder

-- The messages fetched, those sent on the channel, those that stand in it and those received, each
-- in order, and those whose commit has returned no error. `cancelled` is the context that Subscribe
-- was given and `service_cancelled` the one that Close cancels.
pub record Subscription : Type 0 where
  pub forwarder : Forwarder
  pub sent : List Message
  pub buffer : List Message
  pub received : List Message
  pub committed : List Message
  pub cancelled : Bool
  pub service_cancelled : Bool

abbrev pub subscribed : Subscription
subscribed = record {
  forwarder = fetching;
  sent = [];
  buffer = [];
  received = [];
  committed = [];
  cancelled = false;
  service_cancelled = false;
}

-- Who makes a step.
pub data Actor : Type 0 where
  forwarding receiving canceller closer : Actor

pub data Step : Actor → Subscription → Subscription → Type 0 where
  -- The handler is called with the next message.
  fetch :
      (c : Subscription) (m : Message)
      → c.forwarder ≡ fetching
      → Step forwarding c (record c { forwarder = sending m })
  -- `case sub <- msg`.
  send :
      (c : Subscription) (m : Message)
      → c.forwarder ≡ sending m
      → length c.buffer < capacity
      → Step forwarding c (record c {
        forwarder = committing m;
        sent = c.sent ++ m ∷ [];
        buffer = c.buffer ++ m ∷ [];
      })
  -- `case <-ctx.Done()` in the handler: Consume returns its error, and the loop is left.
  give_up :
      (c : Subscription) (m : Message)
      → c.forwarder ≡ sending m
      → c.cancelled ≡ true
      → Step forwarding c (record c { forwarder = closed })
  -- The handler has returned nil, and so does CommitMessages.
  commit :
      (c : Subscription) (m : Message)
      → c.forwarder ≡ committing m
      → Step forwarding c (record c { forwarder = fetching; committed = c.committed ++ m ∷ [] })
  -- CommitMessages fails: the loop backs off, or is left if a context has ended.
  commit_fails :
      (c : Subscription) (m : Message)
      → c.forwarder ≡ committing m
      → c.cancelled ≡ false
      → c.service_cancelled ≡ false
      → Step forwarding c (record c { forwarder = backing_off })
  commit_ends :
      (c : Subscription) (m : Message)
      → c.forwarder ≡ committing m
      → (c.cancelled ≡ true) ⊎ (c.service_cancelled ≡ true)
      → Step forwarding c (record c { forwarder = closed })
  -- FetchMessage fails and no context has ended: the loop backs off.
  fetch_fails :
      (c : Subscription)
      → c.forwarder ≡ fetching
      → c.cancelled ≡ false
      → c.service_cancelled ≡ false
      → Step forwarding c (record c { forwarder = backing_off })
  -- The wait is over, whichever case of its select has ended it.
  resume :
      (c : Subscription)
      → c.forwarder ≡ backing_off
      → Step forwarding c (record c { forwarder = fetching })
  -- FetchMessage returns because the context has ended or the reader is closed.
  leave :
      (c : Subscription)
      → c.forwarder ≡ fetching
      → (c.cancelled ≡ true) ⊎ (c.service_cancelled ≡ true)
      → Step forwarding c (record c { forwarder = closed })
  receive :
      (c : Subscription) (m : Message) (rest : List Message)
      → c.buffer ≡ m ∷ rest
      → Step receiving c (record c { buffer = rest; received = c.received ++ m ∷ [] })
  cancel : (c : Subscription) → Step canceller c (record c { cancelled = true })
  close : (c : Subscription) → Step closer c (record c { service_cancelled = true })

pub data Reach : Subscription → Subscription → Type 0 where
  here : {c : Subscription} → Reach c c
  next : {a : Actor} {c d e : Subscription} → Reach c d → Step a d e → Reach c e
