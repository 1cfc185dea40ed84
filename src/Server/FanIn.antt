-- ===== src/Server/FanIn.antt =====
-- internal/server/event_loop.go: Run, once its readers are made. One goroutine per topic forwards
-- what its reader fetches into one channel, and the main loop takes the messages from there one by
-- one; between two steps the scheduler may run any of them.
pub mod Order
pub mod Redelivery
use microservice_diagnosis.Prelude.{
  ◌&&◌, ℕ, ◌+◌, ◌*◌, ◌<◌, String, Bool, true, false, Option, none, some, List, [], ◌∷◌, ◌++◌,
  length, any, ltb, str_eq, ◌≡◌, if◌then◌else◌,
}
use microservice_diagnosis.Store.Rows.{Uuid}
use microservice_diagnosis.Store.World.{World, Env, Result, ok, err}
use microservice_diagnosis.Bus.Consumer.{Message}
use microservice_diagnosis.Server.Evidence.{ObservationPayload}
use microservice_diagnosis.Server.EventLoop.{Wiring, process_message}

-- The topics that have a reader.
abbrev pub topics : List String
topics =
    "mfdh.observations.log" ∷ "mfdh.observations.metric" ∷ "mfdh.observations.trace"
    ∷ "mfdh.observations.rca" ∷ "mfdh.observations.fix" ∷ []

-- The capacity of msgCh.
abbrev pub capacity : ℕ
capacity = 1024

-- The waits before a fetch is repeated, in milliseconds.
abbrev pub first_backoff : ℕ
first_backoff = 500

abbrev pub longer : ℕ → ℕ
longer backoff = if ltb backoff 10000 then backoff * 2 else backoff

-- What a forwarding goroutine does, with the wait that its next failed fetch leads to: it waits for
-- FetchMessage, waits to repeat it, stands in the select with a message, or has returned, maybe with
-- a message that it has not sent.
pub data Forwarder : Type 0 where
  fetching backing_off : ℕ → Forwarder
  sending : Message → Forwarder
  returned : Option Message → Forwarder

-- What the program has outside: json.Unmarshal and uuid.Parse, and what the handlers run in.
pub record Outside : Type 0 where
  pub env : Env
  pub wiring : Wiring
  pub unmarshal : String → Option ObservationPayload
  pub parse : String → Option Uuid
  -- Whether CommitMessages returns no error for a message, after the messages that it has for.
  pub commits : List Message → Message → Bool

abbrev pub asks : Result Bool → Bool
asks (ok true) = true
asks _ = false

-- The message of an offset that is committed.
abbrev pub commit_offset : Bool → Message → List Message
commit_offset true m = m ∷ []
commit_offset false m = []

-- The main loop over the messages that it takes: the world that they leave, and the messages that
-- CommitMessages has returned no error for, in order. An error of it is logged.
unfoldable pub main_loop : Outside → List Message → World × List Message → World × List Message
main_loop o [] s = s
main_loop o (m ∷ ms) s =
    let turn = process_message o.env o.wiring o.parse (o.unmarshal m.value) s.0 in
    main_loop o ms (turn.1, s.1 ++ commit_offset (asks turn.0 && o.commits s.1 m) m)

-- The goroutines by their topic, the messages fetched, those in the channel and those taken from it,
-- each in order, what the main loop has done, and whether the context is cancelled and Run's loop
-- has returned.
pub record Loop : Type 0 where
  pub readers : String → Forwarder
  pub fetched : List Message
  pub queue : List Message
  pub taken : List Message
  pub done : World × List Message
  pub cancelled : Bool
  pub stopped : Bool

abbrev pub set : String → Forwarder → (String → Forwarder) → String → Forwarder
set topic f readers t = if str_eq topic t then f else readers t

abbrev pub started : World → Loop
started w = record {
  readers = λ t. fetching first_backoff;
  fetched = [];
  queue = [];
  taken = [];
  done = (w, []);
  cancelled = false;
  stopped = false;
}

abbrev pub has_reader : String → Bool
has_reader t = any (str_eq t) topics

pub data Step (o : Outside) : Loop → Loop → Type 0 where
  fetch :
      (l : Loop) (m : Message) (backoff : ℕ)
      → has_reader m.topic ≡ true
      → l.readers m.topic ≡ fetching backoff
      → Step o l
          (record l { readers = set m.topic (sending m) l.readers; fetched = l.fetched ++ m ∷ [] })
  fetch_fails :
      (l : Loop) (topic : String) (backoff : ℕ)
      → l.readers topic ≡ fetching backoff
      → l.cancelled ≡ false
      → Step o l (record l { readers = set topic (backing_off backoff) l.readers })
  retry :
      (l : Loop) (topic : String) (backoff : ℕ)
      → l.readers topic ≡ backing_off backoff
      → Step o l (record l { readers = set topic (fetching (longer backoff)) l.readers })
  -- `case msgCh <- m`.
  forward :
      (l : Loop) (m : Message)
      → l.readers m.topic ≡ sending m
      → length l.queue < capacity
      → Step o l (record l {
        readers = set m.topic (fetching first_backoff) l.readers;
        queue = l.queue ++ m ∷ [];
      })
  -- The goroutine returns, from its select with a message or from anywhere else with none.
  give_up :
      (l : Loop) (m : Message)
      → l.readers m.topic ≡ sending m
      → l.cancelled ≡ true
      → Step o l (record l { readers = set m.topic (returned (some m)) l.readers })
  leave_fetch :
      (l : Loop) (topic : String) (backoff : ℕ)
      → l.readers topic ≡ fetching backoff
      → l.cancelled ≡ true
      → Step o l (record l { readers = set topic (returned none) l.readers })
  leave_wait :
      (l : Loop) (topic : String) (backoff : ℕ)
      → l.readers topic ≡ backing_off backoff
      → l.cancelled ≡ true
      → Step o l (record l { readers = set topic (returned none) l.readers })
  -- `case m := <-msgCh`, with all that the main loop does for the message.
  take :
      (l : Loop) (m : Message) (rest : List Message)
      → l.stopped ≡ false
      → l.queue ≡ m ∷ rest
      → Step o l
          (record l { queue = rest; taken = l.taken ++ m ∷ []; done = main_loop o (m ∷ []) l.done })
  stop : (l : Loop) → l.cancelled ≡ true → Step o l (record l { stopped = true })
  cancel : (l : Loop) → Step o l (record l { cancelled = true })

pub data Reach (o : Outside) : Loop → Loop → Type 0 where
  here : {l : Loop} → Reach o l l
  next : {k l n : Loop} → Reach o k l → Step o l n → Reach o k n
