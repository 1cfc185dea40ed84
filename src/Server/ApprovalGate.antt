-- ===== src/Server/ApprovalGate.antt =====
-- internal/server/orchestrator.go: TriggerApprovalGate.
pub mod Quiet
use microservice_diagnosis.Prelude.{
  ℕ, String, Bool, ◌&&◌, Option, none, some, List, [], ◌∷◌, ◌++◌, filter, if◌then◌else◌,
}
use microservice_diagnosis.Store.Rows.{
  Uuid, Status, awaiting_approval, is_high, ApprovalStatus, pending, is_no_approval, FixAction,
  Approval, DiagnosticSession,
}
use microservice_diagnosis.Store.World.{
  World, Env, M, Result, ok, err, pure, try, ◌>>=◌, ◌>>◌, advance, EventType, approval_required,
  DiagnosticEvent,
}
use microservice_diagnosis.Store.SessionDao
use microservice_diagnosis.Store.FixActionDao
use microservice_diagnosis.Store.ApprovalDao

abbrev pub needs_approval : FixAction → Bool
needs_approval fa = is_high fa.risk && is_no_approval fa.approval_status

-- `RequestApproval` of the approval client.
unfoldable pub request_approval : Env → FixAction → M (Option String)
request_approval env fa w = (ok (env.request_approval fa w.tick), advance w)

-- The record that is persisted; `ApprovalDao.create` gives it its id and its time.
abbrev new_approval : Uuid → FixAction → String → Approval
new_approval session_id fa token = record {
  id = 0;
  session_id = session_id;
  fix_action_id = fa.id;
  status = pending;
  request_token = token;
  requested_at = 0;
  decided_at = none;
  decided_by = none;
}

-- The action is marked only once its record is there.
abbrev mark_pending : Env → FixAction → Result (Unit {0}) → M Unit
mark_pending env fa (ok u) = do try (FixActionDao.update_approval_status env fa.id pending); pure tt
mark_pending env fa (err x) = pure tt

abbrev persist : Env → Uuid → FixAction → Option String → M Unit
persist env session_id fa none = pure tt
persist env session_id fa (some token) = do
  created ← try (ApprovalDao.create env (new_approval session_id fa token))
  mark_pending env fa created

-- One round of the loop.
unfoldable pub ask_one : Env → Uuid → FixAction → M Unit
unfolding request_approval
ask_one env session_id fa = do token ← request_approval env fa; persist env session_id fa token

unfoldable pub ask_each : Env → Uuid → List FixAction → M Unit
ask_each env session_id [] = pure tt
ask_each env session_id (fa ∷ fas) = do ask_one env session_id fa; ask_each env session_id fas

-- `Notify` of the webhook notifier, whose error is dropped.
abbrev pub notify : Env → EventType → Uuid → Status → DiagnosticSession → M Unit
notify env event id status s w = (
  ok tt,
  record w {
    notified =
        w.notified
        ++ (record {
          event_type = event;
          session_id = id;
          status = status;
          service = s.target_service;
          timestamp = env.clock w.tick;
        })
          ∷ [];
  },
)

abbrev gate : Env → Uuid → List FixAction → M Unit
gate env id [] = pure tt
gate env id (fa ∷ fas) = do
  s ← SessionDao.get_by_id env id
  ask_each env id (fa ∷ fas)
  notify env approval_required id awaiting_approval s

unfoldable pub trigger_approval_gate : Env → Uuid → M Unit
trigger_approval_gate env id = do
  fixes ← FixActionDao.get_by_session_id env id
  gate env id (filter needs_approval fixes)
