-- ===== src/Workflow/Graph.antt =====
-- The steps between statuses that a session may take, as a relation, and the engine's table against it.
-- It is the table of PLAN.md section 5.2 with two differences, which Workflow.Design states: a terminal
-- status is left by no edge, and FIX_PROPOSED and FIX_SUGGESTED, which the design calls terminal, lead to
-- FIX_EXECUTING too.
use microservice_diagnosis.Prelude.{◌≡◌, arith}
use microservice_diagnosis.Store.Rows.{
  Uuid, Status, created, collecting, analyzing, rca_done, fix_proposed, awaiting_approval,
  fix_suggested, fix_executing, verifying, resolved, rolled_back, rejected, ignored, failed,
}
use microservice_diagnosis.Store.World.{World, Env, ok}
use microservice_diagnosis.Workflow.Transitions.{Event}
use microservice_diagnosis.Workflow.Engine.{next_status}

-- A session that an operator may still ignore.
pub data IsActive : Status → Type 0 where
  in_created : IsActive created
  in_collecting : IsActive collecting
  in_analyzing : IsActive analyzing
  in_rca_done : IsActive rca_done
  in_fix_proposed : IsActive fix_proposed
  in_awaiting_approval : IsActive awaiting_approval
  in_fix_suggested : IsActive fix_suggested
  in_fix_executing : IsActive fix_executing
  in_verifying : IsActive verifying

infix 40 ◌⟶◌
pub data ◌⟶◌ : Status → Status → Type 0 where
  collect : created ⟶ collecting
  analyze : collecting ⟶ analyzing
  diagnose : analyzing ⟶ rca_done
  propose : rca_done ⟶ fix_proposed
  ask : fix_proposed ⟶ awaiting_approval
  suggest : fix_proposed ⟶ fix_suggested
  approve_directly : fix_proposed ⟶ fix_executing
  approve : awaiting_approval ⟶ fix_executing
  refuse : awaiting_approval ⟶ rejected
  execute : fix_suggested ⟶ fix_executing
  verify : fix_executing ⟶ verifying
  resolve : verifying ⟶ resolved
  roll_back : verifying ⟶ rolled_back
  ignore : {s : Status} → IsActive s → s ⟶ ignored
  fail : {s : Status} → IsActive s → s ⟶ failed

pub ruleset edges = (
  collect, analyze, diagnose, propose, ask, suggest, approve_directly, approve, refuse, execute,
  verify, resolve, roll_back,
)

pub ruleset active = (
  in_created, in_collecting, in_analyzing, in_rca_done, in_fix_proposed, in_awaiting_approval,
  in_fix_suggested, in_fix_executing, in_verifying,
)

-- Whatever the table and the risk check answer is an edge of the diagram.
pub next_status-⟶ :
    (env : Env) (id : Uuid) (s : Status) (e : Event) (w : World) {t : Status}
    → (next_status env id s e w).0 ≡ ok t
    → s ⟶ t
unfolding next_status
next_status-⟶ env id s e w h = grind (arith, edges, active, ignore, fail)
