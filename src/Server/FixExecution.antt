-- ===== src/Server/FixExecution.antt =====
-- internal/server/orchestrator.go: ExecuteFixActions.
pub mod Order
use microservice_diagnosis.Prelude.{
  ℕ, String, Bool, true, false, not, ◌&&◌, Option, none, some, List, [], ◌∷◌, ◌++◌, filter,
  if◌then◌else◌,
}
use microservice_diagnosis.Store.Rows.{
  Uuid, Status, verifying, is_approved, is_not_started, ExecStatus, FixAction, DiagnosticSession,
}
use microservice_diagnosis.Store.World.{
  World, Env, M, Error, invalid_transition, Result, ok, err, pure, throw, try, ◌>>=◌, ◌>>◌, advance,
  ExecOutcome, fix_executed,
}
use microservice_diagnosis.Store.SessionDao
use microservice_diagnosis.Store.FixActionDao
use microservice_diagnosis.Store.FixActionDao.{update_execution_status, set_ticket_id}
use microservice_diagnosis.Workflow.Transitions.{execute_complete}
use microservice_diagnosis.Workflow.Engine.{transition}
use microservice_diagnosis.Server.ApprovalGate.{notify}

-- The two tests at the head of the loop's body.
abbrev pub is_executable : FixAction → Bool
is_executable fa =
    not (fa.requires_approval && not (is_approved fa.approval_status))
    && is_not_started fa.execution_status

-- `Execute` of the executor.
unfoldable run_executor : Env → FixAction → M (Option ExecOutcome)
run_executor env fa w =
    (ok (env.execute fa w.tick), advance (record w { executed = w.executed ++ fa.id ∷ [] }))

-- `CreateIncident` of the incident notifier.
unfoldable pub create_incident : Env → FixAction → M (Option String)
create_incident env fa w = (ok (env.create_incident fa w.tick), advance w)

abbrev save_ticket : Env → FixAction → Option String → M Unit
save_ticket env fa none = pure tt
save_ticket env fa (some ticket) = do try (set_ticket_id env fa.id ticket); pure tt

abbrev open_ticket : Env → FixAction → ExecOutcome → Option String → M Unit
open_ticket env fa ExecOutcome.succeeded none = do
  ticket ← create_incident env fa
  save_ticket env fa ticket
open_ticket env fa _ _ = pure tt

-- A result that is not "FAILED" counts as a success.
abbrev final_status : ExecOutcome → ExecStatus
final_status ExecOutcome.failed = ExecStatus.failed
final_status _ = ExecStatus.succeeded

abbrev settle_action : Env → FixAction → Option ExecOutcome → M Unit
settle_action env fa none = do try (update_execution_status env fa.id ExecStatus.failed); pure tt
settle_action env fa (some outcome) = do
  try (update_execution_status env fa.id (final_status outcome))
  open_ticket env fa outcome fa.ticket_id

-- What follows the two tests.
unfoldable pub run_action : Env → FixAction → M Unit
unfolding run_executor create_incident
run_action env fa = do
  try (update_execution_status env fa.id ExecStatus.running)
  outcome ← run_executor env fa
  settle_action env fa outcome

unfoldable pub execute_each : Env → List FixAction → M Unit
execute_each env [] = pure tt
execute_each env (fa ∷ fas) = do
  if is_executable fa then run_action env fa else pure tt
  execute_each env fas

-- `err != nil && !errors.Is(err, ErrInvalidTransition)`.
abbrev pub unless_invalid : Result Status → M Unit
unless_invalid (ok s) = pure tt
unless_invalid (err invalid_transition) = pure tt
unless_invalid (err x) = throw x

-- What follows the loop.
unfoldable pub finish : Env → Uuid → DiagnosticSession → M Unit
finish env id s = do
  advanced ← try (transition env id execute_complete)
  unless_invalid advanced
  notify env fix_executed id verifying s

unfoldable pub execute_fix_actions : Env → Uuid → M Unit
execute_fix_actions env id = do
  fixes ← FixActionDao.get_by_session_id env id
  s ← SessionDao.get_by_id env id
  execute_each env fixes
  finish env id s
