-- ===== src/Workflow/Engine.antt =====
-- internal/workflow/engine.go: Transition and what it calls.
use microservice_diagnosis.Prelude.{
  ℕ, zero, suc, Bool, ◌&&◌, Option, none, some, List, filter, length, ltb, if◌then◌else◌,
}
use microservice_diagnosis.Store.Rows.{
  Uuid, Status, is_status, awaiting_approval, fix_suggested, fix_proposed, is_high, is_not_started,
  FixAction, DiagnosticSession,
}
use microservice_diagnosis.Store.World.{
  World, Env, M, Error, session_not_found, invalid_transition, driver, Result, ok, err, pure, throw,
  try, ◌>>=◌, ◌>>◌, call, query,
}
use microservice_diagnosis.Store.SessionDao
use microservice_diagnosis.Store.SessionDao.{find_session, update_session}
use microservice_diagnosis.Store.FixActionDao.{in_session}
use microservice_diagnosis.Store.SessionEventDao.{log_state_transition}
use microservice_diagnosis.Workflow.Transitions.{
  Event, is_event, fix_generated, valid_transitions, lookup,
}

-- `SELECT status ... FOR UPDATE SKIP LOCKED`: a row that another transaction holds is skipped.
abbrev select_unlocked : Env → Uuid → World → Option DiagnosticSession
select_unlocked env id w = if env.locked id w.tick then none else find_session id w

-- No row is `ErrSessionNotFound`.
scan_status : Option DiagnosticSession → M Status
scan_status none = throw session_not_found
scan_status (some s) = pure s.status

checked : Option Status → M Status
checked none = throw invalid_transition
checked (some s) = pure s

-- A status that is no key of the map is an error that no caller tells apart from others.
allowed_entry : Event → Option (List (Event × Status)) → M Status
unfolding checked
allowed_entry event none = throw driver
allowed_entry event (some entries) = checked (lookup event entries)

unfoldable pub look_up_transition : Status → Event → M Status
unfolding valid_transitions allowed_entry
look_up_transition status event = allowed_entry event (valid_transitions status)

-- The rows that `SELECT COUNT(*) ... risk = HIGH AND execution_status = NOT_STARTED` counts.
abbrev pub is_pending_high : Uuid → FixAction → Bool
is_pending_high session_id fa =
    in_session session_id fa && (is_high fa.risk && is_not_started fa.execution_status)

unfoldable pub pending_high_count : Uuid → World → ℕ
pending_high_count session_id w = length (filter (is_pending_high session_id) w.fixes)

unfoldable determine_fix_proposed_next_status : Env → Uuid → M Status
unfolding query pending_high_count
determine_fix_proposed_next_status env id = do
  count ← query env (pending_high_count id)
  pure (if ltb 0 count then awaiting_approval else fix_suggested)

unfoldable has_high_risk_fix_action : Env → Uuid → M Bool
unfolding query pending_high_count
has_high_risk_fix_action env id = do count ← query env (pending_high_count id); pure (ltb 0 count)

unfoldable pub next_status : Env → Uuid → Status → Event → M Status
unfolding look_up_transition determine_fix_proposed_next_status
next_status env id status event = do
  next ← look_up_transition status event
  let special = is_status fix_proposed status && is_event fix_generated event
  if special then determine_fix_proposed_next_status env id else pure next

-- The UPDATE and the COMMIT: what the UPDATE writes is seen only once the transaction commits, and a
-- transaction that fails is rolled back.
unfoldable pub write_status : Env → Uuid → Status → M Unit
unfolding call
write_status env id next w =
    (do
      call env (λ v. v)
      call env (update_session id (λ s. record s { status = next; updated_at = env.clock w.tick })))
      w

-- The BEGIN and the locking SELECT.
unfoldable pub lock_session : Env → Uuid → M Status
unfolding query scan_status call
lock_session env id = do
  call env (λ w. w)
  row ← query env (select_unlocked env id)
  scan_status row

unfoldable pub try_transition : Env → Uuid → Event → M Status
try_transition env id event = do
  status ← lock_session env id
  next ← next_status env id status event
  write_status env id next
  try (log_state_transition env id status next "workflow")
  pure next

-- `errors.Is(err, ErrInvalidTransition) || errors.Is(err, ErrSessionNotFound)`.
abbrev is_final : Error → Bool
is_final invalid_transition = Bool.true
is_final session_not_found = Bool.true
is_final _ = Bool.false

-- What the loop does with the outcome of one attempt.
abbrev pub settle : M Status → Result Status → M Status
settle again (ok status) = pure status
settle again (err e) = if is_final e then throw e else again

-- The `for attempt` loop, by the attempts left.
unfoldable pub attempts : ℕ → Env → Uuid → Event → M Status
attempts zero env id event = throw driver
attempts (suc n) env id event = do
  result ← try (try_transition env id event)
  settle (attempts n env id event) result

unfoldable pub transition : Env → Uuid → Event → M Status
unfolding attempts
transition = attempts 3

-- `GetStatus`.
unfoldable pub get_status : Env → Uuid → M Status
get_status env id = do s ← SessionDao.get_by_id env id; pure s.status
