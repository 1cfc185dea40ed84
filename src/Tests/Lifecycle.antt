-- ===== src/Tests/Lifecycle.antt =====
-- The theorems on Transition, on the diagram and on the sweeps at concrete inputs.
use microservice_diagnosis.Prelude.{false, List, [], ◌∷◌, ◌≡◌, ◌≤◌, ◌≢◌, ◌↔◌, refl}
use microservice_diagnosis.Store.Rows.{
  Status, created, collecting, fix_proposed, fix_executing, fix_suggested, ignored, failed,
  FixAction, resolved, running, low, no_approval,
}
use microservice_diagnosis.Store.World.{
  World, Error, call, query, insert, ok, err, driver, invalid_transition,
}
use microservice_diagnosis.Store.Frames.{SameTables}
use microservice_diagnosis.Store.SessionDao
use microservice_diagnosis.Store.SessionEventDao.{log_state_transition}
use microservice_diagnosis.Store.SessionDao.{find_session}
use microservice_diagnosis.Workflow.Transitions.{
  start_collect, approve, ignore, fail, fix_generated, retry, verify_success, valid_transitions,
  Event,
}
use microservice_diagnosis.Workflow.Engine.{
  transition, try_transition, lock_session, next_status, write_status, look_up_transition,
}
use microservice_diagnosis.Workflow.Outcomes.{Moved, transition_ok, transition_error}
use microservice_diagnosis.Workflow.Progress.{target, transition_calm, transition_refused}
use microservice_diagnosis.Workflow.Lifecycle.{transition_ended, is_resolved}
use microservice_diagnosis.Workflow.History.{Moves, start, move, Moves-le}
use microservice_diagnosis.Workflow.Sweep.{sweep_round, verify_event}
use microservice_diagnosis.Workflow.Sweep.Verdict.{verify_event-success, NoneFailed}
use microservice_diagnosis.Workflow.Sweep.Untouched.{rows_of, sweep_round-rows_of}
use microservice_diagnosis.Tests.Scenario.{
  quiet, broken, session_in, world_in, action, restart, switch_over,
}

collects : (transition quiet 1 start_collect (world_in created [])).0 ≡ ok collecting
unfolding transition try_transition lock_session next_status write_status look_up_transition
    SessionDao.update_status log_state_transition call query insert
collects = refl

transition_ok_example :
    Moved 1 collecting
      (world_in created [])
      (transition quiet 1 start_collect (world_in created [])).1
transition_ok_example = transition_ok quiet 1 start_collect (world_in created []) collects

fails : (transition broken 1 start_collect (world_in created [])).0 ≡ err driver
unfolding transition try_transition lock_session next_status write_status look_up_transition
    SessionDao.update_status log_state_transition call query insert
fails = refl

transition_error_example :
    SameTables (world_in created []) (transition broken 1 start_collect (world_in created [])).1
transition_error_example = transition_error broken 1 start_collect (world_in created []) fails

abbrev proposed : List (Event × Status)
proposed =
    (approve, fix_executing)
    ∷ (fix_generated, fix_suggested)
    ∷ (ignore, ignored)
    ∷ (fail, failed)
    ∷ []

abbrev started : List (Event × Status)
started = (start_collect, collecting) ∷ (ignore, ignored) ∷ (fail, failed) ∷ []

abbrev risky : World
risky = world_in fix_proposed (switch_over ∷ [])

transition_calm_example :
    ((transition quiet 1 fix_generated risky).0
      ≡ ok (target 1 fix_proposed fix_generated fix_suggested risky))
    × Moved 1
        (target 1 fix_proposed fix_generated fix_suggested risky)
        risky
        (transition quiet 1 fix_generated risky).1
unfolding valid_transitions
transition_calm_example =
    transition_calm quiet 1 fix_generated risky (session_in 1 fix_proposed) (λ n. refl) refl
      proposed fix_suggested refl refl refl

transition_refused_example :
    transition quiet 1 retry (world_in created [])
    ≡ (err invalid_transition, (try_transition quiet 1 retry (world_in created [])).1)
unfolding valid_transitions
transition_refused_example =
    transition_refused quiet 1 retry (world_in created []) (session_in 1 created) (λ n. refl) refl
      started refl refl refl

transition_ended_example :
    ((x : Error) × ((transition quiet 1 start_collect (world_in resolved [])).0 ≡ err x))
    × SameTables (world_in resolved []) (transition quiet 1 start_collect (world_in resolved [])).1
transition_ended_example =
    transition_ended quiet 1 start_collect (world_in resolved []) (session_in 1 resolved) refl
      is_resolved

abbrev under_way : List FixAction
under_way = action 12 1 low false no_approval running ∷ restart ∷ []

verify_event_example :
    (verify_event under_way ≡ verify_success) ↔ ((under_way ≢ []) × NoneFailed under_way)
verify_event_example = verify_event-success under_way

sweep_round_example :
    rows_of 1 (sweep_round quiet (world_in fix_executing (restart ∷ []))).1
    ≡ rows_of 1 (world_in fix_executing (restart ∷ []))
sweep_round_example = sweep_round-rows_of quiet 1 (world_in fix_executing (restart ∷ [])) (refl, tt)

moved_once :
    Moves quiet 1 1 (world_in created []) (transition quiet 1 start_collect (world_in created [])).1
moved_once = move start_collect collecting collects start

Moves_example : 1 ≤ 8
Moves_example = Moves-le moved_once
