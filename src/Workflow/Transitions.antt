-- ===== src/Workflow/Transitions.antt =====
-- internal/workflow/engine.go: the events, ValidTransitions and IsTerminal.
use microservice_diagnosis.Prelude.{
  ℕ, Bool, true, false, Option, none, some, List, [], ◌∷◌, ◌==◌, if◌then◌else◌,
}
use microservice_diagnosis.Store.Rows.{
  Status, created, collecting, analyzing, rca_done, fix_proposed, awaiting_approval, fix_suggested,
  fix_executing, verifying, resolved, rolled_back, rejected, ignored, failed,
}

pub data Event : Type 0 where
  start_collect collect_complete analysis_complete rca_generated fix_generated approve : Event
  reject execute execute_complete verify_success verify_failure ignore fail retry : Event

abbrev event_code : Event → ℕ
event_code start_collect = 0
event_code collect_complete = 1
event_code analysis_complete = 2
event_code rca_generated = 3
event_code fix_generated = 4
event_code approve = 5
event_code reject = 6
event_code execute = 7
event_code execute_complete = 8
event_code verify_success = 9
event_code verify_failure = 10
event_code ignore = 11
event_code fail = 12
event_code retry = 13

abbrev pub is_event : Event → Event → Bool
is_event e f = event_code f == event_code e

-- ValidTransitions, at a status: `none` is a status that is no key of the outer map.
unfoldable pub valid_transitions : Status → Option (List (Event × Status))
valid_transitions created =
    some ((start_collect, collecting) ∷ (ignore, ignored) ∷ (fail, failed) ∷ [])
valid_transitions collecting =
    some ((collect_complete, analyzing) ∷ (ignore, ignored) ∷ (fail, failed) ∷ [])
valid_transitions analyzing =
    some ((analysis_complete, rca_done) ∷ (ignore, ignored) ∷ (fail, failed) ∷ [])
valid_transitions rca_done =
    some ((rca_generated, fix_proposed) ∷ (ignore, ignored) ∷ (fail, failed) ∷ [])
valid_transitions fix_proposed = some (
    (approve, fix_executing)
    ∷ (fix_generated, fix_suggested)
    ∷ (ignore, ignored)
    ∷ (fail, failed)
    ∷ [])
valid_transitions awaiting_approval =
    some ((approve, fix_executing) ∷ (reject, rejected) ∷ (ignore, ignored) ∷ (fail, failed) ∷ [])
valid_transitions fix_suggested =
    some ((execute, fix_executing) ∷ (ignore, ignored) ∷ (fail, failed) ∷ [])
valid_transitions fix_executing =
    some ((execute_complete, verifying) ∷ (ignore, ignored) ∷ (fail, failed) ∷ [])
valid_transitions verifying = some (
    (verify_success, resolved)
    ∷ (verify_failure, rolled_back)
    ∷ (ignore, ignored)
    ∷ (fail, failed)
    ∷ [])
valid_transitions resolved = some []
valid_transitions rejected = some []
valid_transitions rolled_back = some []
valid_transitions ignored = some []
valid_transitions failed = some []
valid_transitions (Status.other s) = none

-- `eventMap[event]`.
abbrev pub lookup : Event → List (Event × Status) → Option Status
lookup e [] = none
lookup e ((f, s) ∷ rest) = let found = lookup e rest in if is_event e f then some s else found

abbrev is_empty_map : Option (List (Event × Status)) → Bool
is_empty_map none = false
is_empty_map (some []) = true
is_empty_map (some (entry ∷ rest)) = false

unfoldable pub is_terminal : Status → Bool
unfolding valid_transitions
is_terminal status = is_empty_map (valid_transitions status)
