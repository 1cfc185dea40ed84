-- ===== src/Server/Handlers/Decisions.antt =====
-- DecisionApproval hands nothing to the executor.
use microservice_diagnosis.Prelude.{String, Option, List, ◌≡◌, refl, arith}
use microservice_diagnosis.Store.Rows.{Uuid, ApprovalStatus}
use microservice_diagnosis.Store.World.{World, Env}
use microservice_diagnosis.Store.Preserves.{Preserves-kept}
use microservice_diagnosis.Store.FixActionDao
use microservice_diagnosis.Store.ApprovalDao
use microservice_diagnosis.Workflow.Outcomes.{transition-rest}
use microservice_diagnosis.Server.Handlers.{DecisionRequest, decision_approval}
use microservice_diagnosis.Server.Handlers.Preserves.{Calls, decision_approval-Preserves}

module _ (env : Env) where
  approval_read-executed :
      (id : Uuid) (w : World) → (ApprovalDao.get_by_id env id w).1.executed ≡ w.executed
  unfolding ApprovalDao.get_by_id
  approval_read-executed id w = ground arith

  updated-executed :
      (id : Uuid) (s : ApprovalStatus) (by : String) (w : World)
      → (ApprovalDao.update_decision env id s by w).1.executed ≡ w.executed
  unfolding ApprovalDao.update_decision
  updated-executed id s by w = ground arith

  fix_read-executed :
      (id : Uuid) (w : World) → (FixActionDao.get_by_id env id w).1.executed ≡ w.executed
  unfolding FixActionDao.get_by_id
  fix_read-executed id w = ground arith

  marked-executed :
      (id : Uuid) (s : ApprovalStatus) (w : World)
      → (FixActionDao.update_approval_status env id s w).1.executed ≡ w.executed
  unfolding FixActionDao.update_approval_status
  marked-executed id s w = ground arith

  calls-executed : (ids : List Uuid) → Calls env (λ w. w.executed ≡ ids)
  calls-executed ids = record {
    moved =
        λ id e. Preserves-kept (λ w. w.executed) ids _ (λ w. (transition-rest env id e w).executed);
    approval_read = λ id. Preserves-kept (λ w. w.executed) ids _ (approval_read-executed id);
    updated = λ id s by. Preserves-kept (λ w. w.executed) ids _ (updated-executed id s by);
    fix_read = λ id. Preserves-kept (λ w. w.executed) ids _ (fix_read-executed id);
    marked = λ id s. Preserves-kept (λ w. w.executed) ids _ (marked-executed id s);
  }

  -- No decision, and no approval in particular, hands an action to the executor.
  pub decision_approval-executed :
      (id approval_id : Option Uuid) (request : Option DecisionRequest) (w : World)
      → (decision_approval env id approval_id request w).1.executed ≡ w.executed
  decision_approval-executed id approval_id request w =
      (decision_approval-Preserves env (λ v. v.executed ≡ w.executed) (calls-executed w.executed) id
          approval_id request).at
        w refl
