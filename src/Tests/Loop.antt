-- ===== src/Tests/Loop.antt =====
-- The theorems on the event loop, the executor's loop and the handlers at concrete inputs.
use microservice_diagnosis.Prelude.{
  ◌<◌, ◌++◌, Bool, true, false, none, some, List, [], ◌∷◌, filter, ◌≡◌, ◌≢◌, refl, arith,
}
use microservice_diagnosis.Store.Rows.{
  Status, created, rca_done, fix_executing, awaiting_approval, pending, FixAction,
}
use microservice_diagnosis.Store.World.{World, ok}
use microservice_diagnosis.Store.FixActionDao.{fixes_of}
use microservice_diagnosis.Workflow.Engine.{pending_high_count}
use microservice_diagnosis.Workflow.Sweep.Untouched.{rows_of}
use microservice_diagnosis.Server.Evidence.{codes, ObservationPayload, Kind, kind_of}
use microservice_diagnosis.Server.FixExecution.{is_executable, execute_fix_actions}
use microservice_diagnosis.Server.FixExecution.Order.{ids, execute_fix_actions-executed}
use microservice_diagnosis.Server.EventLoop.{wired, propose_fixes, handle_observation}
use microservice_diagnosis.Server.EventLoop.RiskGate.{propose_fixes-executed}
use microservice_diagnosis.Server.EventLoop.Idle.{Expected, evidence, diagnosis, fix}
use microservice_diagnosis.Server.EventLoop.Isolation.{handle_observation-rows_of}
use microservice_diagnosis.Server.Handlers.{
  retry_session, session_ok, decision_approval, DecisionRequest, approve_decision,
}
use microservice_diagnosis.Server.Handlers.Retry.{retry_session_never_ok}
use microservice_diagnosis.Server.Handlers.Decisions.{decision_approval-executed}
use microservice_diagnosis.Workflow.Declared.{AllDeclared}
use microservice_diagnosis.Server.Calls.{
  Call, post_session, post_start, observed, sweep_tick, serve_all,
}
use microservice_diagnosis.Server.Calls.Declared.{serve_all-AllDeclared}
use microservice_diagnosis.Tests.Scenario.{quiet, session_in, world_in, restart, switch_over}

abbrev plan : List FixAction
plan = restart ∷ switch_over ∷ []

execute_fix_actions_example :
    (execute_fix_actions quiet 1 (world_in fix_executing plan)).1.executed
    ≡ [] ++ ids (filter is_executable (fixes_of 1 (world_in fix_executing plan)))
execute_fix_actions_example =
    execute_fix_actions-executed quiet 1 (world_in fix_executing plan) (session_in 1 fix_executing)
      refl refl refl

-- Of the plan, only the restart is handed over.
plan_executed : ids (filter is_executable (fixes_of 1 (world_in fix_executing plan))) ≡ 10 ∷ []
plan_executed = refl

plan_is_high : 0 < pending_high_count 1 (world_in rca_done plan)
unfolding pending_high_count
plan_is_high = omega arith

propose_fixes_example :
    (propose_fixes quiet (wired quiet) 1 (world_in rca_done plan)).1.executed ≡ []
propose_fixes_example = propose_fixes-executed quiet 1 (world_in rca_done plan) plan_is_high

abbrev fix_message : ObservationPayload
fix_message = record { session_id = "1"; type_name = codes "FIX_ACTION"; target_service = "orders" }

abbrev is_created : Status → Bool
is_created created = true
is_created _ = false

never_created : {s : Status} {k : Kind} → Expected s k → is_created s ≡ false
never_created evidence = refl
never_created diagnosis = refl
never_created fix = refl

not_expected : ¬ Expected created (kind_of (codes "FIX_ACTION"))
unfolding kind_of
not_expected h = let e : is_created created ≡ false = never_created h in cc

handle_observation-rows_of_example :
    rows_of 2 (handle_observation quiet (wired quiet) 1 fix_message (world_in rca_done plan)).1
    ≡ rows_of 2 (world_in rca_done plan)
handle_observation-rows_of_example =
    handle_observation-rows_of quiet 1 2 refl fix_message (world_in rca_done plan)

retry_session_example :
    (retry_session quiet (some 1) (world_in Status.failed [])).0
    ≢ ok (session_ok (session_in 1 created))
retry_session_example =
    retry_session_never_ok quiet (some 1) (world_in Status.failed []) (session_in 1 created)

abbrev waiting : World
waiting = record (world_in awaiting_approval plan) {
  approvals =
      (record {
        id = 20;
        session_id = 1;
        fix_action_id = 11;
        status = pending;
        request_token = "token";
        requested_at = 950;
        decided_at = none;
        decided_by = none;
      })
      ∷ [];
}

abbrev approval_request : DecisionRequest
approval_request = record { decision = approve_decision; decided_by = "ops" }

decision_approval_example :
    (decision_approval quiet (some 1) (some 20) (some approval_request) waiting).1.executed ≡ []
decision_approval_example =
    decision_approval-executed quiet (some 1) (some 20) (some approval_request) waiting

abbrev a_day : List Call
a_day = post_session (some "orders") ∷ post_start (some 1) ∷ observed none ∷ sweep_tick ∷ []

serve_all-AllDeclared_example :
    AllDeclared (serve_all quiet (λ s. some 1) a_day (world_in created []))
serve_all-AllDeclared_example =
    serve_all-AllDeclared quiet (λ s. some 1) a_day (world_in created []) (tt, (tt, tt))
