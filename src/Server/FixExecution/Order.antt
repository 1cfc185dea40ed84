-- ===== src/Server/FixExecution/Order.antt =====
-- Which actions ExecuteFixActions hands to the executor, and in which order.
use microservice_diagnosis.Prelude.{
  ◌+◌, false, some, List, [], ◌∷◌, ◌++◌, map, filter, ◌≡◌, ◌∙◌, refl, sym, ap, arith, Bool-cases,
  inl, inr,
}
use mathlib.Core.List.{append-nil, append_assoc}
use microservice_diagnosis.Store.Rows.{Uuid, Status, FixAction, DiagnosticSession}
use microservice_diagnosis.Store.World.{World, Env, Result, ok, err, advance, invalid_transition}
use microservice_diagnosis.Store.SessionDao.{find_session}
use microservice_diagnosis.Store.SessionDao
use microservice_diagnosis.Store.FixActionDao
use microservice_diagnosis.Store.FixActionDao.{fixes_of, update_execution_status, set_ticket_id}
use microservice_diagnosis.Workflow.Transitions.{execute_complete}
use microservice_diagnosis.Workflow.Engine.{transition}
use microservice_diagnosis.Workflow.Outcomes.{transition-rest}
use microservice_diagnosis.Server.FixExecution.{
  is_executable, run_action, execute_each, finish, execute_fix_actions,
}

abbrev pub ids : List FixAction → List Uuid
ids = map (λ fa. fa.id)

run_action-executed :
    (env : Env) (fa : FixAction) (w : World)
    → ((run_action env fa w).0 ≡ ok tt)
      × ((run_action env fa w).1.executed ≡ w.executed ++ fa.id ∷ [])
unfolding run_action update_execution_status set_ticket_id
run_action-executed env fa w = ground arith

execute_each-executed :
    (env : Env) (fas : List FixAction) (w : World)
    → ((execute_each env fas w).0 ≡ ok tt)
      × ((execute_each env fas w).1.executed ≡ w.executed ++ ids (filter is_executable fas))
unfolding execute_each
execute_each-executed env [] w = (refl, sym (append-nil w.executed))
execute_each-executed env (fa ∷ fas) w = elim (Bool-cases (is_executable fa)) [
  | inl e ↦
      let (returned, ran) = run_action-executed env fa w in
      let (rest, run) = execute_each-executed env fas (run_action env fa w).1 in
      rw (e, returned)
        (
          rest,
          run
              ∙ ap (λ xs. xs ++ ids (filter is_executable fas)) ran
              ∙ append_assoc w.executed (fa.id ∷ []) (ids (filter is_executable fas)),
        )
  | inr e ↦ rw e (execute_each-executed env fas w)
]

finish-executed :
    (env : Env) (id : Uuid) (s : DiagnosticSession) (w : World)
    → (finish env id s w).1.executed ≡ w.executed
unfolding finish
finish-executed env id s w = by_result (transition env id execute_complete w).0 refl
  where
    by_result :
        (r : Result Status)
        → (transition env id execute_complete w).0 ≡ r
        → (finish env id s w).1.executed ≡ w.executed
    by_result (ok t) q = rw q (transition-rest env id execute_complete w).executed
    by_result (err invalid_transition) q = rw q (transition-rest env id execute_complete w).executed
    by_result (err x) q = rw q (transition-rest env id execute_complete w).executed

-- When the fix actions and the session can be read, the actions that the executor is handed are
-- exactly those of the session that have not started and that need no approval or have it, each
-- once, in the order of their sequence numbers.
pub execute_fix_actions-executed :
    (env : Env) (id : Uuid) (w : World) (s : DiagnosticSession)
    → env.fault w.tick ≡ false
    → env.fault (w.tick + 1) ≡ false
    → find_session id w ≡ some s
    → (execute_fix_actions env id w).1.executed
      ≡ w.executed ++ ids (filter is_executable (fixes_of id w))
unfolding execute_fix_actions FixActionDao.get_by_session_id SessionDao.get_by_id
execute_fix_actions-executed env id w s calm calm' found =
    let (returned, ran) = execute_each-executed env (fixes_of id w) (advance (advance w)) in
    rw (calm, calm', found, returned) (finish-executed env id s _ ∙ ran)
