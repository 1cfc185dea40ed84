-- ===== src/Workflow/Sweep.antt =====
-- internal/workflow/engine.go: the periodic sweeps, and the body of the ticker loop of
-- internal/server/event_loop.go that runs them.
pub mod Untouched
pub mod Verdict
pub mod Declared
use microservice_diagnosis.Prelude.{
  ℕ, ◌-◌, Bool, true, false, not, ◌&&◌, ◌||◌, List, [], ◌∷◌, map, filter, length, ltb, ◌==◌,
  if◌then◌else◌,
}
use microservice_diagnosis.Store.Rows.{
  Uuid, Time, Status, is_status, collecting, fix_proposed, verifying, FixAction, DiagnosticSession,
  is_exec_failed, is_succeeded,
}
use microservice_diagnosis.Store.World.{
  World, Env, M, Result, ok, err, pure, try, ◌>>=◌, ◌>>◌, call, query,
}
use microservice_diagnosis.Store.FixActionDao.{get_by_session_id}
use microservice_diagnosis.Workflow.Transitions.{
  Event, fail, fix_generated, verify_success, verify_failure,
}
use microservice_diagnosis.Workflow.Engine.{transition}

-- The ids of the sessions that pass a WHERE clause.
abbrev select_ids : (DiagnosticSession → Bool) → World → List Uuid
select_ids p w = map (λ s. s.id) (filter p w.sessions)

-- `if err := rows.Scan(&id); err != nil { continue }`, and else the body.
visit : Result (Unit {0}) → M Unit → M Unit
visit (ok u) body = body
visit (err x) body = pure tt

-- The loop over the rows; the result of the body is only logged.
pub for_each : Env → (Uuid → M Status) → List Uuid → M Unit
unfolding visit
for_each env body [] = pure tt
for_each env body (id ∷ ids) = do
  scanned ← try (call env (λ w. w))
  visit scanned (try (body id) >> pure tt)
  for_each env body ids

-- Thirty minutes.
abbrev stuck_after : Time
stuck_after = 1800

-- `status = COLLECTING AND updated_at < deadline ... FOR UPDATE SKIP LOCKED`. Times are not negative,
-- so that the truncated difference is below no time that the difference is not below.
abbrev is_stuck : Env → World → DiagnosticSession → Bool
is_stuck env w s =
    is_status collecting s.status
    && ltb s.updated_at (env.clock w.tick - stuck_after)
    && not (env.locked s.id w.tick)

unfoldable pub sweep : Env → M Unit
unfolding query
sweep env = do
  ids ← query env (λ w. select_ids (is_stuck env w) w)
  for_each env (λ id. transition env id fail) ids

unfoldable pub sweep_fix_proposed : Env → M Unit
unfolding query
sweep_fix_proposed env = do
  ids ← query env (select_ids (λ s. is_status fix_proposed s.status))
  for_each env (λ id. transition env id fix_generated) ids

-- The loop over the fix actions, from the values that the two flags have.
abbrev scan_flags : List FixAction → Bool → Bool → Bool × Bool
scan_flags [] all_succeeded any_failed = (all_succeeded, any_failed)
scan_flags (fa ∷ fas) all_succeeded any_failed =
    scan_flags fas (if is_succeeded fa.execution_status then all_succeeded else false)
      (if is_exec_failed fa.execution_status then true else any_failed)

unfoldable pub verify_event : List FixAction → Event
verify_event fixes =
    let (all_succeeded, any_failed) = scan_flags fixes (ltb 0 (length fixes)) false in
    if any_failed
    then verify_failure
    else if not all_succeeded && length fixes == 0
    then verify_failure
    else verify_success

-- `fixes, _ := ...`: after an error the slice is nil.
abbrev or_nil : Result (List FixAction) → List FixAction
or_nil (ok fixes) = fixes
or_nil (err x) = []

unfoldable pub verify_session : Env → Uuid → M Status
verify_session env id = do
  fixes ← try (get_by_session_id env id)
  transition env id (verify_event (or_nil fixes))

unfoldable pub sweep_verifying : Env → M Unit
unfolding query
sweep_verifying env = do
  ids ← query env (select_ids (λ s. is_status verifying s.status))
  for_each env (verify_session env) ids

-- One tick of the sweep loop: an error of one sweep is logged, and the next runs.
unfoldable pub sweep_round : Env → M Unit
sweep_round env = do
  try (sweep env)
  try (sweep_fix_proposed env)
  try (sweep_verifying env)
  pure tt
