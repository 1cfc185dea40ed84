-- ===== src/Agent/Runner/Delivery.antt =====
-- What becomes of a message that an agent receives and of the observations that it publishes.
use microservice_diagnosis.Prelude.{
  ℕ, zero, suc, ◌+◌, String, Bool, false, not, ◌&&◌, Option, none, some, List, [], ◌∷◌, ◌++◌, ◌≡◌,
  refl, ◌∙◌, ap, arith, Bool-cases, inl, inr, if◌then◌else◌, str_eq,
}
use microservice_diagnosis.Agent.Observation.{Observation}
use microservice_diagnosis.Agent.Runner.{
  CommandMessage, Incoming, Outgoing, Bus, Runner, publish, retry_publish, publish_with_retry,
  outgoing, publish_outputs, publish_handled, is_for, run_observation, run_message, command_of,
  process_message,
}

-- What a publication leaves: the message out once if it succeeded and not at all if it failed.
abbrev pub Delivered : Outgoing → Bus → Bool × Bus → Type 0
Delivered m b (sent, b') =
    (b'.published ≡ (if sent then b.published ++ m ∷ [] else b.published)) × (b'.marked ≡ b.marked)

publish-Delivered : (r : Runner) (m : Outgoing) (b : Bus) → Delivered m b (publish r m b)
publish-Delivered r m b = elim (Bool-cases (r.fault b.tick)) [
  | inl e ↦ rw e (refl, refl)
  | inr e ↦ rw e (refl, refl)
]

retry_publish-Delivered :
    (r : Runner) (m : Outgoing) (n : ℕ) (b : Bus) → Delivered m b (retry_publish r m n b)
unfolding retry_publish
retry_publish-Delivered r m zero b = (refl, refl)
retry_publish-Delivered r m (suc n) b =
    let ih = retry_publish-Delivered r m n (record b { tick = b.tick + 1 }) in
    elim (Bool-cases (r.fault b.tick)) [
      | inl e ↦ elim (Bool-cases (r.cancelled (b.tick + 1))) [
        | inl c ↦ rw (e, c) (refl, refl)
        | inr c ↦ rw (e, c) ih
      ]
      | inr e ↦ rw e (refl, refl)
    ]

-- A message that is published with retries goes out exactly once if publishWithRetry succeeds, and
-- not at all if it gives up; the consumer is not touched.
pub publish_with_retry-Delivered :
    (r : Runner) (m : Outgoing) (b : Bus) → Delivered m b (publish_with_retry r m b)
unfolding publish_with_retry
publish_with_retry-Delivered r m b = retry_publish-Delivered r m 3 b

-- While the context is not done, publishWithRetry gives up exactly when three calls in a row fail.
pub publish_with_retry_attempts :
    (r : Runner) (m : Outgoing) (b : Bus)
    → ((n : ℕ) → r.cancelled n ≡ false)
    → (publish_with_retry r m b).0
      ≡ not (r.fault b.tick && r.fault (b.tick + 1) && r.fault (b.tick + 2))
unfolding publish_with_retry retry_publish
publish_with_retry_attempts r m b running =
    ground (arith, running (b.tick + 1), running (b.tick + 2), running (b.tick + 3))

publish_outputs-marked :
    (r : Runner) (id : String) (os : List Observation) (b : Bus)
    → (publish_outputs r id os b).marked ≡ b.marked
unfolding publish_outputs
publish_outputs-marked r id [] b = refl
publish_outputs-marked r id (o ∷ os) b =
    publish_outputs-marked r id os _ ∙ (publish_with_retry-Delivered r (outgoing r id o) b).1

publish_handled-marked :
    (r : Runner) (id : String) (outputs : Option (List Observation)) (b : Bus)
    → (publish_handled r id outputs b).marked ≡ b.marked
publish_handled-marked r id none b = refl
publish_handled-marked r id (some os) b = publish_outputs-marked r id os b

run_observation-marked :
    (r : Runner) (o : Option Observation) (b : Bus) → (run_observation r o b).marked ≡ b.marked
run_observation-marked r none b = refl
run_observation-marked r (some o) b = elim (Bool-cases (str_eq o.source r.name)) [
  | inl e ↦ rw e refl
  | inr e ↦ elim (Bool-cases (str_eq o.session_id "")) [
    | inl k ↦ rw (e, k) refl
    | inr k ↦ rw (e, k) (publish_handled-marked r o.session_id _ b)
  ]
]

run_message-marked :
    (r : Runner) (msg : Incoming) (cmd : Option CommandMessage) (b : Bus)
    → (run_message r msg cmd b).marked ≡ b.marked
run_message-marked r msg (some cmd) b = elim (Bool-cases (is_for r cmd)) [
  | inl e ↦ rw e (publish_handled-marked r cmd.session_id _ b)
  | inr e ↦ rw e refl
]
run_message-marked r msg none b = run_observation-marked r msg.as_observation b

-- Every message is marked as processed exactly once, whatever its payload, also when Handle or the
-- publication of an output fails.
pub process_message-marked :
    (r : Runner) (msg : Incoming) (b : Bus)
    → (process_message r msg b).marked ≡ b.marked ++ msg.offset ∷ []
unfolding process_message
process_message-marked r msg b =
    ap (λ marks. marks ++ msg.offset ∷ []) (run_message-marked r msg (command_of msg) b)
