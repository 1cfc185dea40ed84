-- ===== src/Notify/Webhook/Attempts.antt =====
-- What the attempts of one delivery come to.
use microservice_diagnosis.Prelude.{
  ℕ, zero, suc, ◌+◌, ◌≤◌, Bool, true, false, ◌||◌, List, [], ◌∷◌, ◌++◌, length, length-append, ◌≡◌,
  refl, sym, ◌∙◌, arith, Bool-cases, inl, inr,
}
use microservice_diagnosis.Store.World.{DiagnosticEvent}
use microservice_diagnosis.Notify.Webhook.{
  WebhookConfig, Reply, not_built, not_sent, answered, DeliveryStatus, success, fail,
  WebhookDeliveryLog, Delivery, Channel, max_attempts, is_delivered, posted, after_failure,
  attempts, no_delivery, deliver,
}

abbrev is_success : DeliveryStatus → ℕ
is_success success = 1
is_success fail = 0

abbrev pub successes : List WebhookDeliveryLog → ℕ
successes [] = 0
successes (l ∷ ls) = is_success l.status + successes ls

successes-append :
    (xs ys : List WebhookDeliveryLog) → successes (xs ++ ys) ≡ successes xs + successes ys
successes-append [] ys = omega arith
successes-append (x ∷ xs) ys = omega (arith, successes-append xs ys)

-- Whether one of some attempts, from one on, is answered with a status from 200 to 299.
abbrev pub any_delivered : Channel → WebhookConfig → ℕ → ℕ → Bool
any_delivered h cfg zero attempt = false
any_delivered h cfg (suc n) attempt =
    is_delivered (h.reply cfg attempt) || any_delivered h cfg n (attempt + 1)

abbrev pub one_if : Bool → ℕ
one_if true = 1
one_if false = 0

-- A run of at most `left` attempts from `d`.
pub record Settled (h : Channel) (cfg : WebhookConfig) (left attempt : ℕ) (d : Delivery)
    (out : Bool × Delivery) : Type 0 where
  pub delivered : out.0 ≡ any_delivered h cfg left attempt
  pub one_success : successes out.1.logs ≡ successes d.logs + one_if out.0
  pub bounded : length out.1.logs ≤ length d.logs + left
  pub requests : length out.1.requests + length d.logs ≡ length d.requests + length out.1.logs

-- A failed attempt adds at most a row, which is none of a success.
record Failed (d f : Delivery) : Type 0 where
  no_success : successes f.logs ≡ successes d.logs
  bounded : length f.logs ≤ length d.logs + 1
  requests : length f.requests + length d.logs ≡ length d.requests + length f.logs

after_failure-Failed :
    (h : Channel) (cfg : WebhookConfig) (e : DiagnosticEvent) (attempt : ℕ) (r : Reply)
    (d : Delivery)
    → Failed d (after_failure h cfg e attempt r d)
after_failure-Failed h cfg e attempt not_built d = record {
  no_success = refl;
  bounded = omega arith;
  requests = omega arith;
}
after_failure-Failed h cfg e attempt not_sent d = record {
  no_success = omega (arith, successes-append d.logs (_ ∷ []));
  bounded = omega (arith, length-append d.logs (_ ∷ []));
  requests = omega (arith, length-append d.logs (_ ∷ []), length-append d.requests (_ ∷ []));
}
after_failure-Failed h cfg e attempt (answered code) d = record {
  no_success = omega (arith, successes-append d.logs (_ ∷ []));
  bounded = omega (arith, length-append d.logs (_ ∷ []));
  requests = omega (arith, length-append d.logs (_ ∷ []), length-append d.requests (_ ∷ []));
}

Settled-success :
    (h : Channel) (cfg : WebhookConfig) (e : DiagnosticEvent) (left attempt : ℕ) (d : Delivery)
    → is_delivered (h.reply cfg attempt) ≡ true
    → Settled h cfg (suc left) attempt d (true, posted h cfg e attempt success d)
Settled-success h cfg e left attempt d k = record {
  delivered = sym (rw k refl);
  one_success = omega (arith, successes-append d.logs (_ ∷ []));
  bounded = omega (arith, length-append d.logs (_ ∷ []));
  requests = omega (arith, length-append d.logs (_ ∷ []), length-append d.requests (_ ∷ []));
}

Settled-failure :
    (h : Channel) (cfg : WebhookConfig) (left attempt : ℕ) (d f : Delivery) (out : Bool × Delivery)
    → is_delivered (h.reply cfg attempt) ≡ false
    → Failed d f
    → Settled h cfg left (attempt + 1) f out
    → Settled h cfg (suc left) attempt d out
Settled-failure h cfg left attempt d f out k v s = record {
  delivered = s.delivered ∙ sym (rw k refl);
  one_success = omega (arith, s.one_success, v.no_success);
  bounded = omega (arith, s.bounded, v.bounded);
  requests = omega (arith, s.requests, v.requests);
}

attempts-Settled :
    (h : Channel) (cfg : WebhookConfig) (e : DiagnosticEvent) (left attempt : ℕ) (d : Delivery)
    → Settled h cfg left attempt d (attempts h cfg e left attempt d)
unfolding attempts
attempts-Settled h cfg e zero attempt d = record {
  delivered = refl;
  one_success = omega arith;
  bounded = omega arith;
  requests = omega arith;
}
attempts-Settled h cfg e (suc left) attempt d =
    let f = after_failure h cfg e attempt (h.reply cfg attempt) d in
    let rest = attempts-Settled h cfg e left (attempt + 1) f in
    elim (Bool-cases (is_delivered (h.reply cfg attempt))) [
      | inl k ↦ simp (k) (Settled-success h cfg e left attempt d k)
      | inr k ↦ simp (k) (
          Settled-failure h cfg left attempt d f _ k
            (after_failure-Failed h cfg e attempt (h.reply cfg attempt) d) rest)
    ]

-- The delivery of an event to a channel succeeds exactly if one of its three attempts is answered
-- with a status from 200 to 299, where an attempt whose request cannot be built is not answered. It
-- logs at most three rows, as many as it sends requests; if it succeeds, exactly one of them is a
-- success, and otherwise none is.
pub deliver-Settled :
    (h : Channel) (cfg : WebhookConfig) (e : DiagnosticEvent)
    → ((deliver h cfg e).0 ≡ any_delivered h cfg max_attempts 1)
      × (successes (deliver h cfg e).1.logs ≡ one_if (deliver h cfg e).0)
      × (length (deliver h cfg e).1.logs ≤ max_attempts)
      × (length (deliver h cfg e).1.requests ≡ length (deliver h cfg e).1.logs)
unfolding deliver
deliver-Settled h cfg e =
    let s = attempts-Settled h cfg e max_attempts 1 no_delivery in
    (s.delivered, omega (arith, s.one_success), omega (arith, s.bounded), omega (arith, s.requests))
