-- ===== src/Server/Handlers/Declared.antt =====
-- The HTTP handlers leave only declared statuses.
use microservice_diagnosis.Prelude.{
  ℕ, ◌+◌, All, subst, sym, update_where, if◌then◌else◌, String, Option, none, some, List, [], ◌∷◌,
  All-append, All-update_where, Bool-cases, inl, inr, ◌≡◌, not, any, ◌||◌, arith, Bool, true, false,
}
use microservice_diagnosis.Store.Rows.{Uuid, Status, TriggerType, DiagnosticSession, ApprovalStatus}
use microservice_diagnosis.Store.World.{
  World, Env, M, Result, ok, err, invalid_transition, CommandMessage,
}
use microservice_diagnosis.Store.Preserves.{
  Preserves, Preserves-bind, Preserves-try, Preserves-if, Preserves-pure, Preserves-sessions,
  preserves_rules,
}
use microservice_diagnosis.Store.SessionDao
use microservice_diagnosis.Store.SessionDao.{has_session_id}
use microservice_diagnosis.Store.FixActionDao
use microservice_diagnosis.Store.ApprovalDao
use microservice_diagnosis.Workflow.Transitions.{Event}
use microservice_diagnosis.Workflow.Engine.{transition}
use microservice_diagnosis.Workflow.Declared.{HasDeclared, AllDeclared, transition-AllDeclared}
use microservice_diagnosis.Server.Dispatch.{collectors, publish, dispatch_each, dispatch_collect}
use microservice_diagnosis.Server.Handlers.Preserves.{Calls, decision_approval-Preserves}
use microservice_diagnosis.Server.Handlers.{
  DecisionRequest, decision_approval, create_session, created_for, answer_dispatch,
  dispatch_started, after_start, start_session, after_ignore, ignore_session, after_retry,
  after_increment, retry_session,
}

module _ (env : Env) where
  abbrev Safe : {A : Type 0} → M A → Type 0
  Safe m = Preserves AllDeclared m

  transition-Safe : (id : Uuid) (e : Event) → Safe (transition env id e)
  transition-Safe id e = transition-AllDeclared env id e

  get_session-Safe : (id : Uuid) → Safe (SessionDao.get_by_id env id)
  unfolding SessionDao.get_by_id
  get_session-Safe id =
      Preserves-sessions HasDeclared (SessionDao.get_by_id env id) (λ w. ground arith)

  create-Safe : (service : String) (t : TriggerType) → Safe (SessionDao.create env service t)
  unfolding SessionDao.create
  create-Safe service t = record {
    at = λ w h.
        elim (Bool-cases
          (env.fault w.tick || not (not (any (has_session_id (env.new_uuid w.tick)) w.sessions)))) [
            | inl e ↦ simp (e) h
            | inr e ↦ simp (e) (All-append HasDeclared w.sessions _ h (tt, tt))
          ];
  }

  abbrev count_retry : Uuid → World → List DiagnosticSession
  count_retry id w =
      update_where (has_session_id id)
        (λ s. record s { retry_count = s.retry_count + 1; updated_at = env.clock w.tick })
        w.sessions

  sessions-increment_retry :
      (id : Uuid) (w : World)
      → (SessionDao.increment_retry env id w).1.sessions
        ≡ (if env.fault w.tick then w.sessions else count_retry id w)
  unfolding SessionDao.increment_retry
  sessions-increment_retry id w = ground arith

  count_retry-All :
      (id : Uuid) (w : World) (b : Bool)
      → AllDeclared w
      → All HasDeclared (if b then w.sessions else count_retry id w)
  count_retry-All id w true h = h
  count_retry-All id w false h =
      All-update_where HasDeclared (has_session_id id) _ w.sessions (λ s k. k) h

  increment_retry-Safe : (id : Uuid) → Safe (SessionDao.increment_retry env id)
  increment_retry-Safe id = record {
    at = λ w h.
        subst (All HasDeclared) (sym (sessions-increment_retry id w))
          (count_retry-All id w (env.fault w.tick) h);
  }

  created_for-Safe : (service : String) → Safe (created_for env service)
  created_for-Safe service = search (preserves_rules, create-Safe)

  pub create_session-AllDeclared : (body : Option String) → Safe (create_session env body)
  unfolding create_session
  create_session-AllDeclared none = search preserves_rules
  create_session-AllDeclared (some service) =
      Preserves-if _ _ _ (Preserves-pure _) (created_for-Safe service)

  publish-Safe : (m : CommandMessage) → Safe (publish env m)
  unfolding publish
  publish-Safe m = Preserves-sessions HasDeclared (publish env m) (λ w. ground arith)

  publish_each-Safe :
      (id : Uuid) (service : String) (agents : List (String × String))
      → Safe (dispatch_each env id service agents)
  unfolding dispatch_each
  publish_each-Safe id service [] = search preserves_rules
  publish_each-Safe id service (agent ∷ agents) =
      Preserves-bind _ _ (Preserves-try _ (publish-Safe _))
        λ done. publish_each-Safe id service agents

  dispatch_collect-Safe :
      (producer : Bool) (id : Uuid) (service : String)
      → Safe (dispatch_collect env producer id service)
  unfolding dispatch_collect
  dispatch_collect-Safe true id service = publish_each-Safe id service collectors
  dispatch_collect-Safe false id service = search preserves_rules

  answer_dispatch-Safe :
      (s : DiagnosticSession) (r : Result (Unit {0})) → Safe (answer_dispatch s r)
  answer_dispatch-Safe s (ok u) = search preserves_rules
  answer_dispatch-Safe s (err x) = search preserves_rules

  dispatch_started-Safe :
      (loop : Option Bool) (id : Uuid) (r : Result DiagnosticSession)
      → Safe (dispatch_started env loop id r)
  dispatch_started-Safe loop id (err x) = record { at = λ w h. h }
  dispatch_started-Safe none id (ok s) = search preserves_rules
  dispatch_started-Safe (some p) id (ok s) =
      search (preserves_rules, dispatch_collect-Safe, answer_dispatch-Safe)

  after_start-Safe :
      (loop : Option Bool) (id : Uuid) (r : Result Status) → Safe (after_start env loop id r)
  after_start-Safe loop id (err x) = record { at = λ w h. h }
  after_start-Safe loop id (ok s) =
      search (preserves_rules, get_session-Safe, dispatch_started-Safe)

  pub start_session-AllDeclared :
      (loop : Option Bool) (id : Option Uuid) → Safe (start_session env loop id)
  unfolding start_session
  start_session-AllDeclared loop none = search preserves_rules
  start_session-AllDeclared loop (some id) =
      search (preserves_rules, transition-Safe, after_start-Safe)

  after_ignore-Safe : (id : Uuid) (r : Result Status) → Safe (after_ignore env id r)
  after_ignore-Safe id (err x) = record { at = λ w h. h }
  after_ignore-Safe id (ok s) = search (preserves_rules, get_session-Safe)

  pub ignore_session-AllDeclared : (id : Option Uuid) → Safe (ignore_session env id)
  unfolding ignore_session
  ignore_session-AllDeclared none = search preserves_rules
  ignore_session-AllDeclared (some id) =
      search (preserves_rules, transition-Safe, after_ignore-Safe)

  after_retry-Safe : (id : Uuid) (r : Result Status) → Safe (after_retry env id r)
  after_retry-Safe id (err invalid_transition) = search preserves_rules
  after_retry-Safe id (err x) = record { at = λ w h. h }
  after_retry-Safe id (ok s) = search (preserves_rules, get_session-Safe)

  after_increment-Safe : (id : Uuid) (r : Result ℕ) → Safe (after_increment env id r)
  after_increment-Safe id (err x) = record { at = λ w h. h }
  after_increment-Safe id (ok n) = search (preserves_rules, transition-Safe, after_retry-Safe)

  pub retry_session-AllDeclared : (id : Option Uuid) → Safe (retry_session env id)
  unfolding retry_session
  retry_session-AllDeclared none = search preserves_rules
  retry_session-AllDeclared (some id) =
      search (preserves_rules, increment_retry-Safe, after_increment-Safe)

  get_approval-AllDeclared : (id : Uuid) → Preserves AllDeclared (ApprovalDao.get_by_id env id)
  unfolding ApprovalDao.get_by_id
  get_approval-AllDeclared id =
      Preserves-sessions HasDeclared (ApprovalDao.get_by_id env id) (λ w. ground arith)

  update_decision-AllDeclared :
      (id : Uuid) (s : ApprovalStatus) (by : String)
      → Preserves AllDeclared (ApprovalDao.update_decision env id s by)
  unfolding ApprovalDao.update_decision
  update_decision-AllDeclared id s by =
      Preserves-sessions HasDeclared (ApprovalDao.update_decision env id s by) (λ w. ground arith)

  get_fix-AllDeclared : (id : Uuid) → Preserves AllDeclared (FixActionDao.get_by_id env id)
  unfolding FixActionDao.get_by_id
  get_fix-AllDeclared id =
      Preserves-sessions HasDeclared (FixActionDao.get_by_id env id) (λ w. ground arith)

  update_approval_status-AllDeclared :
      (id : Uuid) (s : ApprovalStatus)
      → Preserves AllDeclared (FixActionDao.update_approval_status env id s)
  unfolding FixActionDao.update_approval_status
  update_approval_status-AllDeclared id s =
      Preserves-sessions HasDeclared (FixActionDao.update_approval_status env id s)
        (λ w. ground arith)

  decision_calls : Calls env AllDeclared
  decision_calls = record {
    moved = transition-Safe;
    approval_read = get_approval-AllDeclared;
    updated = update_decision-AllDeclared;
    fix_read = get_fix-AllDeclared;
    marked = update_approval_status-AllDeclared;
  }

  pub decision_approval-AllDeclared :
      (id approval_id : Option Uuid) (request : Option DecisionRequest)
      → Preserves AllDeclared (decision_approval env id approval_id request)
  decision_approval-AllDeclared = decision_approval-Preserves env AllDeclared decision_calls
