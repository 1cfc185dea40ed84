-- ===== src/Server/Handlers/Preserves.antt =====
-- What DecisionApproval preserves: a property of the world that none of the calls that it is built from
-- changes.
use microservice_diagnosis.Prelude.{String, Option, none, some, ◌==◌}
use microservice_diagnosis.Store.Rows.{Uuid, ApprovalStatus, Approval, FixAction}
use microservice_diagnosis.Store.World.{World, Env, M, Result, ok, err, pure}
use microservice_diagnosis.Store.Preserves.{
  Preserves, Preserves-if, Preserves-pure, preserves_rules,
}
use microservice_diagnosis.Store.FixActionDao
use microservice_diagnosis.Store.ApprovalDao
use microservice_diagnosis.Workflow.Transitions.{Event}
use microservice_diagnosis.Workflow.Engine.{transition}
use microservice_diagnosis.Server.Handlers.{
  Decision, unspecified, DecisionRequest, bad_request, mark_fix, after_update, decide, check_owner,
  check_decision, decision_approval,
}

-- The calls that DecisionApproval is built from.
pub record Calls (env : Env) (P : World → Type 0) : Type 0 where
  pub moved : (id : Uuid) (e : Event) → Preserves P (transition env id e)
  pub approval_read : (id : Uuid) → Preserves P (ApprovalDao.get_by_id env id)
  pub updated :
      (id : Uuid) (s : ApprovalStatus) (by : String)
      → Preserves P (ApprovalDao.update_decision env id s by)
  pub fix_read : (id : Uuid) → Preserves P (FixActionDao.get_by_id env id)
  pub marked :
      (id : Uuid) (s : ApprovalStatus) → Preserves P (FixActionDao.update_approval_status env id s)

module _ (env : Env) (P : World → Type 0) (calls : Calls env P) where
  abbrev Safe : {A : Type 0} → M A → Type 0
  Safe m = Preserves P m

  transition-Safe : (id : Uuid) (e : Event) → Safe (transition env id e)
  transition-Safe id e = calls.moved id e

  get_approval-Safe : (id : Uuid) → Safe (ApprovalDao.get_by_id env id)
  get_approval-Safe id = calls.approval_read id

  update_decision-Safe :
      (id : Uuid) (s : ApprovalStatus) (by : String)
      → Safe (ApprovalDao.update_decision env id s by)
  update_decision-Safe id s by = calls.updated id s by

  get_fix-Safe : (id : Uuid) → Safe (FixActionDao.get_by_id env id)
  get_fix-Safe id = calls.fix_read id

  update_approval_status-Safe :
      (id : Uuid) (s : ApprovalStatus) → Safe (FixActionDao.update_approval_status env id s)
  update_approval_status-Safe id s = calls.marked id s

  mark_fix-Safe : (s : ApprovalStatus) (r : Result FixAction) → Safe (mark_fix env s r)
  mark_fix-Safe s (err x) = record { at = λ w h. h }
  mark_fix-Safe s (ok fa) = search (preserves_rules, update_approval_status-Safe)

  after_update-Safe :
      (id approval_id : Uuid) (a : Approval) (d : Decision) (r : Result (Unit {0}))
      → Safe (after_update env id approval_id a d r)
  after_update-Safe id approval_id a d (err x) = record { at = λ w h. h }
  after_update-Safe id approval_id a d (ok u) =
      search (preserves_rules, get_fix-Safe, mark_fix-Safe, transition-Safe)

  check_owner-Safe :
      (id approval_id : Uuid) (request : DecisionRequest) (r : Result Approval)
      → Safe (check_owner env id approval_id request r)
  check_owner-Safe id approval_id request (err x) = record { at = λ w h. h }
  check_owner-Safe id approval_id request (ok a) =
      Preserves-if (a.session_id == id) (decide env id approval_id a request) (pure bad_request)
        (search (preserves_rules, update_decision-Safe, after_update-Safe))
        (Preserves-pure bad_request)

  check_decision-Safe :
      (id approval_id : Uuid) (request : DecisionRequest) (d : Decision)
      → Safe (check_decision env id approval_id request d)
  check_decision-Safe id approval_id request unspecified = record { at = λ w h. h }
  check_decision-Safe id approval_id request _ =
      search (preserves_rules, get_approval-Safe, check_owner-Safe)

  -- What these calls preserve, a decision does.
  pub decision_approval-Preserves :
      (id approval_id : Option Uuid) (request : Option DecisionRequest)
      → Safe (decision_approval env id approval_id request)
  unfolding decision_approval
  decision_approval-Preserves none approval_id request = search preserves_rules
  decision_approval-Preserves (some id) none request = search preserves_rules
  decision_approval-Preserves (some id) (some a) none = search preserves_rules
  decision_approval-Preserves (some id) (some a) (some request) =
      check_decision-Safe id a request request.decision
