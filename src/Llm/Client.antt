-- ===== src/Llm/Client.antt =====
-- internal/llm/client.go: Chat with its retries, its rate limit and the reading of a response. Times
-- are milliseconds. The HTTP service, the context and the calls that other goroutines make while this
-- one sleeps or waits for its response are parameters.
pub mod Limit
pub mod Answer
use microservice_diagnosis.Prelude.{
  ℕ, zero, suc, ◌+◌, ◌-◌, ◌*◌, String, Bool, true, false, Option, none, some, List, [], ◌∷◌, ◌++◌,
  ◌==◌, if◌then◌else◌,
}

-- A response of the service with its body, as json.Unmarshal reads it: its error, if it has one, and
-- the contents of its choices.
pub data Reply : Type 0 where
  no_response unreadable : Reply
  answered : ℕ → Option (Bool × List String) → Reply

abbrev pub first_choice : List String → Option String
first_choice [] = none
first_choice (c ∷ cs) = some c

abbrev unless_error : Option (Bool × List String) → Option String
unless_error none = none
unless_error (some (failed, choices)) = if failed then none else first_choice choices

-- The content that doChatRequest returns, or none for an error.
unfoldable pub content_of : Reply → Option String
content_of no_response = none
content_of unreadable = none
content_of (answered code body) = if code == 200 then unless_error body else none

-- `reply` is the response to an attempt; the others are asked at each tick of the state: whether the
-- context ends a sleep, how much longer than asked for a step takes, and when other goroutines
-- reserve a time of their own meanwhile.
pub record Client : Type 0 where
  pub min_interval : ℕ
  pub reply : ℕ → Reply
  pub cancelled : ℕ → Bool
  pub delay : ℕ → ℕ
  pub others : ℕ → List ℕ

-- `reserved` has the times that lastRequest has had, the newest first, and `sent` the requests of this
-- call: for each, the time that it has reserved and the time at which it is sent.
pub record State : Type 0 where
  pub tick : ℕ
  pub now : ℕ
  pub last_request : ℕ
  pub reserved : List ℕ
  pub sent : List (ℕ × ℕ)

-- `wait`, where it is positive: minInterval less the time since lastRequest, which may lie ahead.
abbrev pub wait_for : Client → ℕ → ℕ → ℕ
wait_for k now last = (k.min_interval + last) - now

-- The section under the lock, whose two readings of the clock both give `now`.
abbrev pub reserve : Client → ℕ → State → State
reserve k now s =
    let slot = now + wait_for k now s.last_request in
    record s { last_request = slot; reserved = slot ∷ s.reserved }

abbrev pub reserve_each : Client → List ℕ → State → State
reserve_each k [] s = s
reserve_each k (now ∷ nows) s = reserve_each k nows (reserve k now s)

-- Time passes, and other goroutines run.
abbrev pub pass : Client → ℕ → State → State
pass k d s =
    reserve_each k (k.others s.tick)
      (record s { tick = s.tick + 1; now = s.now + (d + k.delay s.tick) })

-- `sleepCtx`, which does not look at the context where there is nothing to wait for.
abbrev pub sleep_ctx : Client → ℕ → State → Bool × State
sleep_ctx k zero s = (true, s)
sleep_ctx k (suc d) s = (if k.cancelled s.tick then false else true, pass k (suc d) s)

-- Before the second attempt 200 and before the third 400.
abbrev pub backoff : ℕ → ℕ
backoff zero = 0
backoff (suc zero) = 200
backoff (suc (suc n)) = 2 * backoff (suc n)

abbrev pub send : Client → ℕ → State → State
send k slot s = pass k 0 (record s { sent = (slot, s.now) ∷ s.sent })

abbrev pub or_retry : Option String → State → Option String × State → Option String × State
or_retry none posted rest = rest
or_retry (some content) posted rest = (some content, posted)

-- The loop of chatWithRetry, with the attempts that are left.
unfoldable pub chat_with_retry : Client → ℕ → ℕ → State → Option String × State
chat_with_retry k zero attempt s = (none, s)
chat_with_retry k (suc left) attempt s =
    let slept = sleep_ctx k (backoff attempt) s in
    let mine = reserve k slept.1.now slept.1 in
    let waited = sleep_ctx k (wait_for k slept.1.now slept.1.last_request) mine in
    let posted = send k mine.last_request waited.1 in
    let rest = chat_with_retry k left (attempt + 1) posted in
    if slept.0
    then (if waited.0
        then or_retry (content_of (k.reply attempt)) posted rest
        else (none, waited.1))
    else (none, slept.1)

-- `Chat`.
unfoldable pub chat : Client → State → Option String × State
chat k s = chat_with_retry k 3 0 s
