-- ===== src/Store/SessionDao.antt =====
-- internal/store/session.go: SessionDAO over the table diagnostic_sessions.
use microservice_diagnosis.Prelude.{
  ℕ, ◌+◌, String, Bool, Option, none, some, not, [], ◌∷◌, ◌++◌, find?, any, update_where, ◌==◌,
}
use microservice_diagnosis.Store.Rows.{Uuid, Status, created, TriggerType, DiagnosticSession}
use microservice_diagnosis.Store.World.{
  World, Env, M, not_found, no_rows, pure, throw, ◌>>=◌, ◌>>◌, call, query, insert,
}

abbrev pub has_session_id : Uuid → DiagnosticSession → Bool
has_session_id id s = s.id == id

abbrev pub find_session : Uuid → World → Option DiagnosticSession
find_session id w = find? (has_session_id id) w.sessions

-- An UPDATE ... WHERE id = $1.
abbrev pub update_session : Uuid → (DiagnosticSession → DiagnosticSession) → World → World
update_session id f w = record w { sessions = update_where (has_session_id id) f w.sessions }

new_session : Env → String → TriggerType → World → DiagnosticSession
new_session env service trigger w = record {
  id = env.new_uuid w.tick;
  status = created;
  target_service = service;
  trigger_type = trigger;
  retry_count = 0;
  report_url = none;
  created_at = env.clock w.tick;
  updated_at = env.clock w.tick;
}

-- `Create`; the caller's trigger type is never empty.
unfoldable pub create : Env → String → TriggerType → M DiagnosticSession
unfolding new_session insert
create env service trigger w =
    let s = new_session env service trigger w in
    (insert env (λ v. not (any (has_session_id s.id) v.sessions))
          (λ v. record v { sessions = v.sessions ++ s ∷ [] })
        >> pure s)
      w

-- `scanSession`: a row that is not there is `ErrNotFound`.
scan_session : Option DiagnosticSession → M DiagnosticSession
scan_session none = throw not_found
scan_session (some s) = pure s

unfoldable pub get_by_id : Env → Uuid → M DiagnosticSession
unfolding query scan_session
get_by_id env id = do row ← query env (find_session id); scan_session row

-- `RowsAffected` of an UPDATE by primary key.
abbrev affected : Option DiagnosticSession → M Unit
affected none = throw not_found
affected (some s) = pure tt

unfoldable pub update_status : Env → Uuid → Status → M Unit
unfolding call
update_status env id status w =
    (do
      call env
          (update_session id (λ s. record s { status = status; updated_at = env.clock w.tick }))
      λ v. affected (find_session id v) v)
      w

unfoldable set_report_url : Env → Uuid → String → M Unit
unfolding call
set_report_url env id url w =
    call env
      (update_session id (λ s. record s { report_url = some url; updated_at = env.clock w.tick })) w

-- The row that `RETURNING retry_count` reads; with no row, `Scan` gives `pgx.ErrNoRows`, which is
-- wrapped and is not `ErrNotFound`.
returned_count : Option DiagnosticSession → M ℕ
returned_count none = throw no_rows
returned_count (some s) = pure s.retry_count

unfoldable pub increment_retry : Env → Uuid → M ℕ
unfolding call returned_count
increment_retry env id w =
    (do
      call env (
          update_session id
            (λ s. record s { retry_count = s.retry_count + 1; updated_at = env.clock w.tick }))
      λ v. returned_count (find_session id v) v)
      w
