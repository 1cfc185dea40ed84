-- ===== src/Llm/Client/Limit.antt =====
-- The rate limit of the client.
use microservice_diagnosis.Prelude.{
  ℕ, zero, suc, ◌+◌, ◌≤◌, Option, none, some, String, List, [], ◌∷◌, All, ◌≡◌, refl, arith,
  Bool-cases, inl, inr,
}
use microservice_diagnosis.Llm.Client.{
  Client, State, wait_for, reserve, reserve_each, pass, sleep_ctx, backoff, send, or_retry,
  content_of, chat_with_retry, chat,
}

-- Any two of the times, the newest first, are at least an interval apart.
abbrev pub Spaced : ℕ → List ℕ → Type 0
Spaced interval [] = Unit
Spaced interval (t ∷ ts) = All (λ u. u + interval ≤ t) ts × Spaced interval ts

abbrev NotEarly : ℕ × ℕ → Type 0
NotEarly (slot, time) = slot ≤ time

pub record IsLimited (k : Client) (s : State) : Type 0 where
  pub spaced : Spaced k.min_interval s.reserved
  pub latest : All (λ t. t ≤ s.last_request) s.reserved
  pub not_early : All NotEarly s.sent

All-map :
    {A : Type 0} (P Q : A → Type 0) (xs : List A) → ((x : A) → P x → Q x) → All P xs → All Q xs
All-map P Q [] f h = tt
All-map P Q (x ∷ xs) f h = (f x h.0, All-map P Q xs f h.1)

reserve-IsLimited :
    (k : Client) (now : ℕ) (s : State) → IsLimited k s → IsLimited k (reserve k now s)
reserve-IsLimited k now s v = record {
  spaced = (
    All-map (λ t. t ≤ s.last_request)
        (λ t. t + k.min_interval ≤ now + wait_for k now s.last_request) s.reserved
        (λ t h. omega (arith, h)) v.latest,
    v.spaced,
  );
  latest = (
    omega arith,
    All-map (λ t. t ≤ s.last_request) (λ t. t ≤ now + wait_for k now s.last_request) s.reserved
        (λ t h. omega (arith, h)) v.latest,
  );
  not_early = v.not_early;
}

reserve_each-IsLimited :
    (k : Client) (nows : List ℕ) (s : State) → IsLimited k s → IsLimited k (reserve_each k nows s)
reserve_each-IsLimited k [] s v = v
reserve_each-IsLimited k (now ∷ nows) s v =
    reserve_each-IsLimited k nows (reserve k now s) (reserve-IsLimited k now s v)

pass-IsLimited : (k : Client) (d : ℕ) (s : State) → IsLimited k s → IsLimited k (pass k d s)
pass-IsLimited k d s v =
    reserve_each-IsLimited k (k.others s.tick) _
      (record { spaced = v.spaced; latest = v.latest; not_early = v.not_early })

sleep_ctx-IsLimited :
    (k : Client) (d : ℕ) (s : State) → IsLimited k s → IsLimited k (sleep_ctx k d s).1
sleep_ctx-IsLimited k zero s v = v
sleep_ctx-IsLimited k (suc d) s v = pass-IsLimited k (suc d) s v

reserve_each-now : (k : Client) (nows : List ℕ) (s : State) → (reserve_each k nows s).now ≡ s.now
reserve_each-now k [] s = refl
reserve_each-now k (now ∷ nows) s = reserve_each-now k nows (reserve k now s)

reserve_each-sent : (k : Client) (nows : List ℕ) (s : State) → (reserve_each k nows s).sent ≡ s.sent
reserve_each-sent k [] s = refl
reserve_each-sent k (now ∷ nows) s = reserve_each-sent k nows (reserve k now s)

-- Who sleeps is not woken early.
sleep_ctx-now : (k : Client) (d : ℕ) (s : State) → s.now + d ≤ (sleep_ctx k d s).1.now
sleep_ctx-now k zero s = omega arith
sleep_ctx-now k (suc d) s = omega (
  arith,
  reserve_each-now k (k.others s.tick)
      (record s { tick = s.tick + 1; now = s.now + (suc d + k.delay s.tick) }),
)

send-IsLimited :
    (k : Client) (slot : ℕ) (s : State) → slot ≤ s.now → IsLimited k s → IsLimited k (send k slot s)
send-IsLimited k slot s h v =
    pass-IsLimited k 0 (record s { sent = (slot, s.now) ∷ s.sent })
      (record { spaced = v.spaced; latest = v.latest; not_early = (h, v.not_early) })

or_retry-IsLimited :
    (k : Client) (o : Option String) (posted : State) (rest : Option String × State)
    → IsLimited k posted
    → IsLimited k rest.1
    → IsLimited k (or_retry o posted rest).1
or_retry-IsLimited k none posted rest v r = r
or_retry-IsLimited k (some c) posted rest v r = v

chat_with_retry-IsLimited :
    (k : Client) (left attempt : ℕ) (s : State)
    → IsLimited k s
    → IsLimited k (chat_with_retry k left attempt s).1
unfolding chat_with_retry
chat_with_retry-IsLimited k zero attempt s v = v
chat_with_retry-IsLimited k (suc left) attempt s v =
    let slept = sleep_ctx k (backoff attempt) s in
    let wait = wait_for k slept.1.now slept.1.last_request in
    let mine = reserve k slept.1.now slept.1 in
    let waited = sleep_ctx k wait mine in
    let posted = send k mine.last_request waited.1 in
    let rested : IsLimited k slept.1 = sleep_ctx-IsLimited k (backoff attempt) s v in
    let ready : IsLimited k waited.1 =
      sleep_ctx-IsLimited k wait mine (reserve-IsLimited k slept.1.now slept.1 rested) in
    let done : IsLimited k posted =
      send-IsLimited k mine.last_request waited.1 (sleep_ctx-now k wait mine) ready in
    elim (Bool-cases slept.0) [
      | inl e ↦ elim (Bool-cases waited.0) [
        | inl f ↦
            simp (e, f)
              (or_retry-IsLimited k (content_of (k.reply attempt)) posted _ done
                (chat_with_retry-IsLimited k left (attempt + 1) posted done))
        | inr f ↦ simp (e, f) ready
      ]
      | inr e ↦ simp (e) rested
    ]

-- A call of Chat keeps the rate limit, however many goroutines call the client meanwhile and whatever
-- fails: the times that are reserved for requests are at least the minimum interval apart, any two of
-- them, and no request of the call is sent before the time that it has reserved.
pub chat-IsLimited : (k : Client) (s : State) → IsLimited k s → IsLimited k (chat k s).1
unfolding chat
chat-IsLimited k s v = chat_with_retry-IsLimited k 3 0 s v
