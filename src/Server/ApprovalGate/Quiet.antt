-- ===== src/Server/ApprovalGate/Quiet.antt =====
-- The approval gate sends no action to the executor and moves no session.
use microservice_diagnosis.Prelude.{List, [], ◌∷◌, ◌≡◌, refl, arith}
use microservice_diagnosis.Store.Rows.{Uuid, Status, FixAction, DiagnosticSession}
use microservice_diagnosis.Store.World.{World, Env, EventType}
use microservice_diagnosis.Store.Keeps.{Keeps, Keeps-bind, keeps_rules}
use microservice_diagnosis.Store.SessionDao
use microservice_diagnosis.Store.FixActionDao
use microservice_diagnosis.Store.ApprovalDao
use microservice_diagnosis.Server.ApprovalGate.{
  ask_one, ask_each, gate, notify, trigger_approval_gate,
}

abbrev pub sessions_and_executed : World → List DiagnosticSession × List Uuid
sessions_and_executed w = (w.sessions, w.executed)

ask_one-Keeps :
    (env : Env) (id : Uuid) (fa : FixAction) → Keeps sessions_and_executed (ask_one env id fa)
unfolding ask_one ApprovalDao.create FixActionDao.update_approval_status
ask_one-Keeps env id fa = record { at = λ w. ground arith }

ask_each-Keeps :
    (env : Env) (id : Uuid) (fas : List FixAction)
    → Keeps sessions_and_executed (ask_each env id fas)
unfolding ask_each
ask_each-Keeps env id [] = search keeps_rules
ask_each-Keeps env id (fa ∷ fas) =
    Keeps-bind _ _ (ask_one-Keeps env id fa) (λ done. ask_each-Keeps env id fas)

get_session-Keeps :
    (env : Env) (id : Uuid) → Keeps sessions_and_executed (SessionDao.get_by_id env id)
unfolding SessionDao.get_by_id
get_session-Keeps env id = record { at = λ w. ground arith }

get_fixes-Keeps :
    (env : Env) (id : Uuid) → Keeps sessions_and_executed (FixActionDao.get_by_session_id env id)
unfolding FixActionDao.get_by_session_id
get_fixes-Keeps env id = record { at = λ w. ground arith }

Keeps-notify :
    (env : Env) (event : EventType) (id : Uuid) (status : Status) (s : DiagnosticSession)
    → Keeps sessions_and_executed (notify env event id status s)
Keeps-notify env event id status s = record { at = λ w. refl }

gate-Keeps :
    (env : Env) (id : Uuid) (fas : List FixAction) → Keeps sessions_and_executed (gate env id fas)
gate-Keeps env id [] = search keeps_rules
gate-Keeps env id (fa ∷ fas) = search (keeps_rules, get_session-Keeps, ask_each-Keeps, Keeps-notify)

pub trigger_approval_gate-Keeps :
    (env : Env) (id : Uuid) → Keeps sessions_and_executed (trigger_approval_gate env id)
unfolding trigger_approval_gate
trigger_approval_gate-Keeps env id = search (keeps_rules, get_fixes-Keeps, gate-Keeps)

-- The approval gate moves no session and sends no action to the executor.
pub trigger_approval_gate-unmoved :
    (env : Env) (id : Uuid) (w : World)
    → sessions_and_executed (trigger_approval_gate env id w).1 ≡ sessions_and_executed w
trigger_approval_gate-unmoved env id = (trigger_approval_gate-Keeps env id).at
