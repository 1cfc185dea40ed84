-- ===== src/Agent/Runner/Loop.antt =====
-- internal/agent/runner.go: Run.
use microservice_diagnosis.Prelude.{
  ℕ, Bool, true, false, List, [], ◌∷◌, ◌++◌, append_nil, append_assoc, map, leb, if◌then◌else◌, ◌≡◌,
  sym, ap, ◌∙◌, Bool-cases, inl, inr,
}
use microservice_diagnosis.Agent.Runner.{Runner, Incoming, Bus, process_message}
use microservice_diagnosis.Agent.Runner.Delivery.{process_message-marked}

-- What the select of the loop meets.
pub data Event : Type 0 where
  received : Incoming → Event
  channel_closed context_done : Event

-- One round of the loop: how often Messages gives nil first, whether the context ends in a wait for
-- it, and then the event.
pub record Round : Type 0 where
  pub nils : ℕ
  pub ends_waiting : Bool
  pub event : Event

-- How Run ends; `waiting` is a loop that still waits. All but the first return nil.
pub data Ending : Type 0 where
  subscribe_failed waiting shut_down not_ready closed : Ending

abbrev some_nils : ℕ → Bool → Bool
some_nils n ends = if leb 1 n then ends else false

abbrev after_event : Runner → Event → Bus → Ending × Bus → Ending × Bus
after_event r (received m) b rest = rest
after_event r channel_closed b rest = (closed, b)
after_event r context_done b rest = (shut_down, b)

abbrev bus_after : Runner → Event → Bus → Bus
bus_after r (received m) b = process_message r m b
bus_after r _ b = b

unfoldable pub run_loop : Runner → List Round → Bus → Ending × Bus
run_loop r [] b = (waiting, b)
run_loop r (x ∷ xs) b =
    let rest = run_loop r xs (bus_after r x.event b) in
    if some_nils x.nils x.ends_waiting
    then (shut_down, b)
    else if leb 10 x.nils
    then (not_ready, b)
    else after_event r x.event b rest

-- `Run`; `subscribed` says whether Subscribe succeeds.
unfoldable pub run : Runner → Bool → List Round → Bus → Ending × Bus
run r subscribed xs b = if subscribed then run_loop r xs b else (subscribe_failed, b)

abbrev of_event : Event → List Incoming → List Incoming
of_event (received m) later = m ∷ later
of_event channel_closed later = []
of_event context_done later = []

-- The messages that the loop receives before it ends.
abbrev pub received_before_end : List Round → List Incoming
received_before_end [] = []
received_before_end (x ∷ xs) =
    let later = received_before_end xs in
    if some_nils x.nils x.ends_waiting
    then []
    else if leb 10 x.nils
    then []
    else of_event x.event later

abbrev pub offsets : List Incoming → List ℕ
offsets ms = map (λ m. m.offset) ms

event-marked :
    (r : Runner) (ev : Event) (b : Bus) (rest : Ending × Bus) (later : List Incoming)
    → rest.1.marked ≡ (bus_after r ev b).marked ++ offsets later
    → (after_event r ev b rest).1.marked ≡ b.marked ++ offsets (of_event ev later)
event-marked r (received m) b rest later h =
    h
    ∙ ap (λ marks. marks ++ offsets later) (process_message-marked r m b)
    ∙ append_assoc b.marked (m.offset ∷ []) (offsets later)
event-marked r channel_closed b rest later h = sym (append_nil b.marked)
event-marked r context_done b rest later h = sym (append_nil b.marked)

run_loop-marked :
    (r : Runner) (xs : List Round) (b : Bus)
    → (run_loop r xs b).1.marked ≡ b.marked ++ offsets (received_before_end xs)
unfolding run_loop
run_loop-marked r [] b = sym (append_nil b.marked)
run_loop-marked r (x ∷ xs) b = elim (Bool-cases (some_nils x.nils x.ends_waiting)) [
  | inl e ↦ simp (e) (sym (append_nil b.marked))
  | inr e ↦ elim (Bool-cases (leb 10 x.nils)) [
    | inl f ↦ simp (e, f) (sym (append_nil b.marked))
    | inr f ↦
        simp (e, f)
          (event-marked r x.event b _ (received_before_end xs)
            (run_loop-marked r xs (bus_after r x.event b)))
  ]
]

-- A runner that has subscribed marks as processed each message that it receives until it ends, once
-- and in order, whatever the payloads are, also when Handle or the publication of an output fails.
pub run-marked :
    (r : Runner) (xs : List Round) (b : Bus)
    → (run r true xs b).1.marked ≡ b.marked ++ offsets (received_before_end xs)
unfolding run
run-marked r xs b = run_loop-marked r xs b
