-- ===== src/Llm/Client/Answer.antt =====
-- What Chat answers.
use microservice_diagnosis.Prelude.{
  ℕ, zero, suc, ◌+◌, true, false, Option, none, some, String, ◌≡◌, refl,
}
use microservice_diagnosis.Llm.Client.{
  Client, State, wait_for, reserve, sleep_ctx, backoff, send, or_retry, content_of, chat_with_retry,
  chat,
}

abbrev first_of : Option String → Option String → Option String
first_of none rest = rest
first_of (some content) rest = some content

-- The content of the first of some attempts that has one.
abbrev pub first_content : Client → ℕ → ℕ → Option String
first_content k zero attempt = none
first_content k (suc n) attempt =
    first_of (content_of (k.reply attempt)) (first_content k n (attempt + 1))

sleep_ctx_calm :
    (k : Client) (d : ℕ) (s : State)
    → ((t : ℕ) → k.cancelled t ≡ false)
    → (sleep_ctx k d s).0 ≡ true
sleep_ctx_calm k zero s calm = refl
sleep_ctx_calm k (suc d) s calm = rw (calm s.tick) refl

or_retry-first_of :
    (o : Option String) (posted : State) (rest : Option String × State) (later : Option String)
    → rest.0 ≡ later
    → (or_retry o posted rest).0 ≡ first_of o later
or_retry-first_of none posted rest later e = e
or_retry-first_of (some c) posted rest later e = refl

chat_with_retry_calm :
    (k : Client) (left attempt : ℕ) (s : State)
    → ((t : ℕ) → k.cancelled t ≡ false)
    → (chat_with_retry k left attempt s).0 ≡ first_content k left attempt
unfolding chat_with_retry
chat_with_retry_calm k zero attempt s calm = refl
chat_with_retry_calm k (suc left) attempt s calm =
    let slept = sleep_ctx k (backoff attempt) s in
    let wait = wait_for k slept.1.now slept.1.last_request in
    let mine = reserve k slept.1.now slept.1 in
    let waited = sleep_ctx k wait mine in
    let posted = send k mine.last_request waited.1 in
    simp (sleep_ctx_calm k (backoff attempt) s calm, sleep_ctx_calm k wait mine calm)
      (or_retry-first_of (content_of (k.reply attempt)) posted _
        (first_content k left (attempt + 1))
        (chat_with_retry_calm k left (attempt + 1) posted calm))

-- As long as the context does not end, Chat returns the content of the first of three responses that
-- has one, and an error if none of them has.
pub chat_calm :
    (k : Client) (s : State)
    → ((t : ℕ) → k.cancelled t ≡ false)
    → (chat k s).0 ≡ first_content k 3 0
unfolding chat
chat_calm k s calm = chat_with_retry_calm k 3 0 s calm
