-- ===== src/Report/Data/Own.antt =====
-- Whose rows a report shows.
use microservice_diagnosis.Prelude.{
  some, List, [], ◌∷◌, ◌++◌, map, All, All-append, All-filter, All-sort_by, ==_iff, ◌≡◌, ap, subst,
  ◌∙◌, Bool-cases, Option-cases, inl, inr, arith,
}
use microservice_diagnosis.Store.Rows.{
  Uuid, Status, is_status, FixAction, Approval, SessionEvent, DiagnosticSession,
}
use microservice_diagnosis.Store.World.{World, Env, ok, query}
use microservice_diagnosis.Store.Frames.{invert, ok-injective}
use microservice_diagnosis.Store.SessionDao
use microservice_diagnosis.Store.SessionDao.{find_session}
use microservice_diagnosis.Store.FixActionDao
use microservice_diagnosis.Store.FixActionDao.{in_session}
use microservice_diagnosis.Store.SessionEventDao
use microservice_diagnosis.Store.SessionEventDao.{event_in}
use microservice_diagnosis.Report.Data.{
  ReportEvent, recorded, approval, ReportData, approval_in, get_all_approvals_for_session,
  approval_event, start_of, end_of, build_timeline_from_session, or_none, timeline_of,
  load_report_data,
}

-- An event that is recorded for the session, belongs to an approval of it, or is made up of its row.
abbrev pub IsOwnEvent : Uuid → ReportEvent → Type 0
IsOwnEvent id (recorded ev) = ev.session_id ≡ id
IsOwnEvent id (approval a t) = a.session_id ≡ id
IsOwnEvent id _ = Unit

abbrev pub IsOwnFix : Uuid → FixAction → Type 0
IsOwnFix id fa = fa.session_id ≡ id

abbrev pub IsOwnApproval : Uuid → Approval → Type 0
IsOwnApproval id a = a.session_id ≡ id

abbrev IsOwnRow : Uuid → SessionEvent → Type 0
IsOwnRow id ev = ev.session_id ≡ id

pub record IsOwn (id : Uuid) (w : World) (d : ReportData) : Type 0 where
  pub session : find_session id w ≡ some d.session
  pub fix_actions : All (IsOwnFix id) d.fix_actions
  pub approval_logs : All (IsOwnApproval id) d.approval_logs
  pub timeline : All (IsOwnEvent id) d.timeline

fixes-IsOwn :
    (env : Env) (id : Uuid) (w : World)
    → All (IsOwnFix id) (or_none (FixActionDao.get_by_session_id env id w).0)
unfolding FixActionDao.get_by_session_id query
fixes-IsOwn env id w = elim (Bool-cases (env.fault w.tick)) [
  | inl e ↦ rw e tt
  | inr e ↦ rw e (
      All-sort_by (IsOwnFix id) _ _
        (All-filter (IsOwnFix id) (in_session id) w.fixes λ fa h. (==_iff fa.session_id id).0 h))
]

approvals-IsOwn :
    (env : Env) (id : Uuid) (w : World)
    → All (IsOwnApproval id) (or_none (get_all_approvals_for_session env id w).0)
unfolding get_all_approvals_for_session query
approvals-IsOwn env id w = elim (Bool-cases (env.fault w.tick)) [
  | inl e ↦ rw e tt
  | inr e ↦ rw e (
      All-sort_by (IsOwnApproval id) _ _ (
        All-filter (IsOwnApproval id) (approval_in id) w.approvals
          λ a h. (==_iff a.session_id id).0 h))
]

events-IsOwn :
    (env : Env) (id : Uuid) (w : World)
    → All (IsOwnRow id) (or_none (SessionEventDao.get_by_session_id env id w).0)
unfolding SessionEventDao.get_by_session_id query
events-IsOwn env id w = elim (Bool-cases (env.fault w.tick)) [
  | inl e ↦ rw e tt
  | inr e ↦ rw e (
      All-sort_by (IsOwnRow id) _ _
        (All-filter (IsOwnRow id) (event_in id) w.events λ ev h. (==_iff ev.session_id id).0 h))
]

recorded-IsOwn :
    (id : Uuid) (evs : List SessionEvent)
    → All (IsOwnRow id) evs
    → All (IsOwnEvent id) (map recorded evs)
recorded-IsOwn id [] h = tt
recorded-IsOwn id (ev ∷ evs) h = (h.0, recorded-IsOwn id evs h.1)

approval_events-IsOwn :
    (id : Uuid) (approvals : List Approval)
    → All (IsOwnApproval id) approvals
    → All (IsOwnEvent id) (map approval_event approvals)
approval_events-IsOwn id [] h = tt
approval_events-IsOwn id (a ∷ rest) h = (h.0, approval_events-IsOwn id rest h.1)

start_of-IsOwn : (id : Uuid) (s : DiagnosticSession) → All (IsOwnEvent id) (start_of s)
start_of-IsOwn id s = elim (Bool-cases (is_status Status.created s.status)) [
  | inl e ↦ rw e tt
  | inr e ↦ rw e (tt, tt)
]

end_of-IsOwn : (id : Uuid) (s : DiagnosticSession) → All (IsOwnEvent id) (end_of s)
end_of-IsOwn id s = elim (Bool-cases (is_status Status.resolved s.status)) [
  | inl e ↦ rw e (tt, tt)
  | inr e ↦ rw e tt
]

made_up-IsOwn :
    (id : Uuid) (s : DiagnosticSession) (approvals : List Approval)
    → All (IsOwnApproval id) approvals
    → All (IsOwnEvent id) (build_timeline_from_session s approvals)
made_up-IsOwn id s approvals h = (
  tt,
  All-append (IsOwnEvent id) (start_of s) (map approval_event approvals ++ end_of s)
      (start_of-IsOwn id s)
      (All-append (IsOwnEvent id) (map approval_event approvals) (end_of s)
        (approval_events-IsOwn id approvals h) (end_of-IsOwn id s)),
)

timeline-IsOwn :
    (id : Uuid) (s : DiagnosticSession) (approvals : List Approval) (evs : List SessionEvent)
    → All (IsOwnApproval id) approvals
    → All (IsOwnRow id) evs
    → All (IsOwnEvent id) (timeline_of s approvals evs)
timeline-IsOwn id s approvals [] h k = made_up-IsOwn id s approvals h
timeline-IsOwn id s approvals (ev ∷ evs) h k = recorded-IsOwn id (ev ∷ evs) k

found_session :
    (env : Env) (id : Uuid) (w : World) (s : DiagnosticSession)
    → (SessionDao.get_by_id env id w).0 ≡ ok s
    → find_session id w ≡ some s
unfolding SessionDao.get_by_id query
found_session env id w s h = elim (Bool-cases (env.fault w.tick)) [
  | inl e ↦ ground arith
  | inr e ↦ elim (Option-cases (find_session id w)) [
    | inl k ↦ ground arith
    | inr (t, k) ↦ k ∙ ap some (ok-injective (rw (e, k) at h))
  ]
]

-- A report that is loaded shows the row of the session that it is asked for, and fix actions,
-- approvals and events of no other session, whatever queries fail on the way.
pub load_report_data-IsOwn :
    (env : Env) (id : Uuid) (w : World) (d : ReportData)
    → (load_report_data env id w).0 ≡ ok d
    → IsOwn id w d
unfolding load_report_data
load_report_data-IsOwn env id w d h =
    invert _ (λ v. IsOwn id w d) (SessionDao.get_by_id env id) w
      (λ s got rest. subst (IsOwn id w) (ok-injective rest) (record {
        session = found_session env id w s got;
        fix_actions = fixes-IsOwn env id _;
        approval_logs = approvals-IsOwn env id _;
        timeline = timeline-IsOwn id s _ _ (approvals-IsOwn env id _) (events-IsOwn env id _);
      }))
      h
