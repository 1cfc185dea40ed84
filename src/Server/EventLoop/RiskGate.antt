-- ===== src/Server/EventLoop/RiskGate.antt =====
-- A HIGH-risk action holds the whole plan back.
use microservice_diagnosis.Prelude.{
  ℕ, zero, suc, ◌<◌, ◌≡◌, refl, sym, subst, ap, ◌∙◌, arith, length, filter,
}
use microservice_diagnosis.Store.Rows.{Uuid, Status, awaiting_approval}
use microservice_diagnosis.Store.World.{
  World, Env, M, Error, Result, ok, err, continue, try, ◌>>=◌, invalid_transition,
  session_not_found,
}
use microservice_diagnosis.Store.Frames.{invert, ok-injective}
use microservice_diagnosis.Workflow.Transitions.{fix_generated, rca_generated}
use microservice_diagnosis.Workflow.Engine.{
  pending_high_count, next_status, lock_session, write_status, try_transition, settle, attempts,
  transition, is_pending_high,
}
use microservice_diagnosis.Workflow.Outcomes.{
  transition-rest, try_transition-Atomic, lock_session-Reads,
}
use microservice_diagnosis.Server.EventLoop.{wired, after_risk_check, propose_fixes}
use microservice_diagnosis.Server.ApprovalGate.Quiet.{trigger_approval_gate-Keeps}

next_status_high :
    (env : Env) (id : Uuid) (s : Status) (w : World) {t : Status}
    → 0 < pending_high_count id w
    → (next_status env id s fix_generated w).0 ≡ ok t
    → t ≡ awaiting_approval
unfolding next_status
next_status_high env id s w high h = ground arith

pending_high_count-fixes :
    (id : Uuid) (v w : World)
    → w.fixes ≡ v.fixes
    → pending_high_count id w ≡ pending_high_count id v
unfolding pending_high_count
pending_high_count-fixes id v w h = ap (λ fas. length (filter (is_pending_high id) fas)) h

abbrev HasHigh : Uuid → World → Type 0
HasHigh id w = 0 < pending_high_count id w

HasHigh-fixes : (id : Uuid) (v w : World) → w.fixes ≡ v.fixes → HasHigh id v → HasHigh id w
HasHigh-fixes id v w same high =
    subst (λ n. 0 < n) (sym (pending_high_count-fixes id v w same)) high

try_transition_high :
    (env : Env) (id : Uuid) (w : World) {t : Status}
    → HasHigh id w
    → (try_transition env id fix_generated w).0 ≡ ok t
    → t ≡ awaiting_approval
unfolding try_transition
try_transition_high env id w {t} high =
    invert _ (λ v. t ≡ awaiting_approval) (lock_session env id) w
      λ s locked.
        invert _ (λ v. t ≡ awaiting_approval) (next_status env id s fix_generated) _
          λ next chosen.
            invert _ (λ v. t ≡ awaiting_approval) (write_status env id next) _
              λ done wrote returned.
                sym (ok-injective returned)
                ∙ next_status_high env id s (lock_session env id w).1
                    (HasHigh-fixes id w _ ((lock_session-Reads env id).at w).fixes high) chosen

settle_high :
    (again : M Status) (r : Result Status) (w : World) {t : Status}
    → ((s : Status) → r ≡ ok s → s ≡ awaiting_approval)
    → ((x : Error) → r ≡ err x → (again w).0 ≡ ok t → t ≡ awaiting_approval)
    → (settle again r w).0 ≡ ok t
    → t ≡ awaiting_approval
settle_high again (ok s) w h k e = sym (ok-injective e) ∙ h s refl
settle_high again (err session_not_found) w h k e = cc
settle_high again (err invalid_transition) w h k e = cc
settle_high again (err x) w h k e = k _ refl e

attempts_high :
    (n : ℕ) (env : Env) (id : Uuid) (w : World) {t : Status}
    → HasHigh id w
    → (attempts n env id fix_generated w).0 ≡ ok t
    → t ≡ awaiting_approval
unfolding attempts
attempts_high zero env id w high e = cc
attempts_high (suc n) env id w high e =
    settle_high (attempts n env id fix_generated) (try_transition env id fix_generated w).0
      (try_transition env id fix_generated w).1 (λ s q. try_transition_high env id w high q)
      (λ x q.
        attempts_high n env id _
          (HasHigh-fixes id w _ ((try_transition-Atomic env id fix_generated).at w q).fixes high))
      e

-- While a session has a HIGH-risk action that has not started, the risk check sends it nowhere but to
-- the approval gate.
pub transition_high :
    (env : Env) (id : Uuid) (w : World) {t : Status}
    → HasHigh id w
    → (transition env id fix_generated w).0 ≡ ok t
    → t ≡ awaiting_approval
unfolding transition
transition_high env id w high e = attempts_high 3 env id w high e

gate_only-executed :
    (env : Env) (id : Uuid) (r : Result Status) (w : World)
    → ((t : Status) → r ≡ ok t → t ≡ awaiting_approval)
    → (after_risk_check env (wired env) id r w).1.executed ≡ w.executed
gate_only-executed env id (ok t) w h =
    rw (h t refl) (ap (λ p. p.1) ((trigger_approval_gate-Keeps env id).at w))
gate_only-executed env id (err invalid_transition) w h = refl
gate_only-executed env id (err x) w h = refl

after_propose-executed :
    (env : Env) (id : Uuid) (r : Result Status) (w : World)
    → HasHigh id w
    → (continue r
        (λ s. try (transition env id fix_generated) >>= λ checked.
          after_risk_check env (wired env) id checked)
        w).1.executed
      ≡ w.executed
after_propose-executed env id (err x) w high = refl
after_propose-executed env id (ok s) w high =
    gate_only-executed env id (transition env id fix_generated w).0
      (transition env id fix_generated w).1 (λ t q. transition_high env id w high q)
    ∙ (transition-rest env id fix_generated w).executed

-- In the deployed wiring, whatever fails on the way, a FIX_ACTION that arrives in RCA_DONE leads to
-- no action being executed while one of the session's unstarted actions is of HIGH risk.
pub propose_fixes-executed :
    (env : Env) (id : Uuid) (w : World)
    → 0 < pending_high_count id w
    → (propose_fixes env (wired env) id w).1.executed ≡ w.executed
unfolding propose_fixes
propose_fixes-executed env id w high =
    after_propose-executed env id (transition env id rca_generated w).0
      (transition env id rca_generated w).1
      (HasHigh-fixes id w _ (transition-rest env id rca_generated w).fixes high)
    ∙ (transition-rest env id rca_generated w).executed
