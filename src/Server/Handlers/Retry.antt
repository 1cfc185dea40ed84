-- ===== src/Server/Handlers/Retry.antt =====
-- RetrySession.
use microservice_diagnosis.Prelude.{ℕ, zero, suc, Option, none, some, ◌≢◌, refl, arith}
use microservice_diagnosis.Store.Rows.{Uuid, Status, DiagnosticSession}
use microservice_diagnosis.Store.World.{
  World, Env, M, Result, ok, err, session_not_found, invalid_transition,
}
use microservice_diagnosis.Store.Frames.{invert}
use microservice_diagnosis.Store.SessionDao
use microservice_diagnosis.Workflow.Transitions.{retry}
use microservice_diagnosis.Workflow.Engine.{
  next_status, lock_session, try_transition, settle, attempts, transition,
}
use microservice_diagnosis.Server.Handlers.{session_ok, after_increment, after_retry, retry_session}

next_status-retry :
    (env : Env) (id : Uuid) (s t : Status) (w : World) → (next_status env id s retry w).0 ≢ ok t
unfolding next_status
next_status-retry env id s t w h = ground arith

try_transition-retry :
    (env : Env) (id : Uuid) (w : World) (t : Status) → (try_transition env id retry w).0 ≢ ok t
unfolding try_transition
try_transition-retry env id w t =
    invert _ (λ v. ⊥) (lock_session env id) w
      λ s locked.
        invert _ (λ v. ⊥) (next_status env id s retry) _
          λ next chosen. absurd (next_status-retry env id s next _ chosen)

settle_never :
    (again : M Status) (r : Result Status) (w : World) (t : Status)
    → ((s : Status) → r ≢ ok s)
    → ((again w).0 ≢ ok t)
    → (settle again r w).0 ≢ ok t
settle_never again (ok s) w t h k e = h s refl
settle_never again (err session_not_found) w t h k e = cc
settle_never again (err invalid_transition) w t h k e = cc
settle_never again (err x) w t h k e = k e

attempts-retry :
    (n : ℕ) (env : Env) (id : Uuid) (w : World) (t : Status) → (attempts n env id retry w).0 ≢ ok t
unfolding attempts
attempts-retry zero env id w t e = cc
attempts-retry (suc n) env id w t e =
    settle_never (attempts n env id retry) (try_transition env id retry w).0 _ t
      (λ s. try_transition-retry env id w s) (attempts-retry n env id _ t) e

transition-retry :
    (env : Env) (id : Uuid) (w : World) (t : Status) → (transition env id retry w).0 ≢ ok t
unfolding transition
transition-retry env id w t = attempts-retry 3 env id w t

retried_answer :
    (env : Env) (id : Uuid) (r : Result Status) (w : World) (s : DiagnosticSession)
    → ((t : Status) → r ≢ ok t)
    → (after_retry env id r w).0 ≢ ok (session_ok s)
retried_answer env id (ok t) w s h e = h t refl
retried_answer env id (err invalid_transition) w s h e = cc
retried_answer env id (err x) w s h e = cc

counted_answer :
    (env : Env) (id : Uuid) (r : Result ℕ) (w : World) (s : DiagnosticSession)
    → (after_increment env id r w).0 ≢ ok (session_ok s)
counted_answer env id (err x) w s e = ground arith
counted_answer env id (ok n) w s e =
    retried_answer env id (transition env id retry w).0 _ s (transition-retry env id w) e

-- No retry request is ever answered with a session: the table has no row for the retry event, so the
-- transition back to CREATED that the handler asks for is always refused.
pub retry_session_never_ok :
    (env : Env) (id : Option Uuid) (w : World) (s : DiagnosticSession)
    → (retry_session env id w).0 ≢ ok (session_ok s)
unfolding retry_session
retry_session_never_ok env none w s e = cc
retry_session_never_ok env (some id) w s e =
    counted_answer env id (SessionDao.increment_retry env id w).0 _ s e
