-- ===== src/Workflow/Progress.antt =====
-- What Transition answers when no call fails: total correctness against the table and the risk of
-- the fix actions.
use microservice_diagnosis.Prelude.{
  ℕ, ◌+◌, true, false, none, some, ◌≡◌, arith, ltb, List, if◌then◌else◌, ◌&&◌,
}
use microservice_diagnosis.Store.Rows.{
  Uuid, Status, is_status, fix_proposed, awaiting_approval, fix_suggested, DiagnosticSession,
}
use microservice_diagnosis.Store.World.{World, Env, ok, err, invalid_transition, session_not_found}
use microservice_diagnosis.Store.SessionDao.{find_session}
use microservice_diagnosis.Workflow.Transitions.{
  Event, is_event, fix_generated, valid_transitions, lookup,
}
use microservice_diagnosis.Workflow.Outcomes.{Moved, transition_ok}
use microservice_diagnosis.Workflow.Engine.{
  pending_high_count, next_status, lock_session, write_status, try_transition, attempts, transition,
}

-- The status that an event leads to: a FIX_PROPOSED session with an unstarted HIGH-risk
-- action waits for approval, all else is the table's.
abbrev pub target : Uuid → Status → Event → Status → World → Status
target id s e t w =
    if is_status fix_proposed s && is_event fix_generated e
    then (if ltb 0 (pending_high_count id w) then awaiting_approval else fix_suggested)
    else t

module _ (env : Env) (id : Uuid) (e : Event) (w : World) (row : DiagnosticSession)
    (calm : (n : ℕ) → env.fault n ≡ false) (found : find_session id w ≡ some row) where
  lock_session_calm :
      env.locked id (w.tick + 1) ≡ false
      → lock_session env id w ≡ (ok row.status, record w { tick = w.tick + 1 + 1 })
  unfolding lock_session
  lock_session_calm free = ground (arith, calm w.tick, calm (w.tick + 1))

  next_status_calm :
      (v : World) (entries : List (Event × Status)) (t : Status)
      → valid_transitions row.status ≡ some entries
      → lookup e entries ≡ some t
      → (next_status env id row.status e v).0 ≡ ok (target id row.status e t v)
  unfolding next_status
  next_status_calm v entries t known allowed = ground (arith, calm v.tick)

  write_status_calm : (t : Status) (v : World) → (write_status env id t v).0 ≡ ok tt
  unfolding write_status
  write_status_calm t v = ground (arith, calm v.tick, calm (v.tick + 1))

  try_transition_calm :
      (entries : List (Event × Status)) (t : Status)
      → env.locked id (w.tick + 1) ≡ false
      → valid_transitions row.status ≡ some entries
      → lookup e entries ≡ some t
      → (try_transition env id e w).0 ≡ ok (target id row.status e t w)
  unfolding try_transition pending_high_count
  try_transition_calm entries t free known allowed =
      let v : World = record w { tick = w.tick + 1 + 1 } in
      rw (lock_session_calm free)
        (rw (next_status_calm v entries t known allowed) (rw (write_status_calm _ _)))

  try_transition_rejected :
      (entries : List (Event × Status))
      → env.locked id (w.tick + 1) ≡ false
      → valid_transitions row.status ≡ some entries
      → lookup e entries ≡ none
      → (try_transition env id e w).0 ≡ err invalid_transition
  unfolding try_transition
  try_transition_rejected entries free known refused =
      rw (lock_session_calm free) (unfold next_status in ground arith)

  transition_answer :
      (entries : List (Event × Status)) (t : Status)
      → env.locked id (w.tick + 1) ≡ false
      → valid_transitions row.status ≡ some entries
      → lookup e entries ≡ some t
      → (transition env id e w).0 ≡ ok (target id row.status e t w)
  unfolding transition attempts
  transition_answer entries t free known allowed =
      rw (try_transition_calm entries t free known allowed)

  -- With no failing call and the row free, an event that the table has for the session's status is
  -- applied: Transition answers with the table's status, but for the risk check of a FIX_PROPOSED
  -- session, which goes to AWAITING_APPROVAL if it has an unstarted HIGH-risk action and else to
  -- FIX_SUGGESTED; and the session's row has that status then and a new time, while all else but the
  -- timeline is as it was.
  pub transition_calm :
      (entries : List (Event × Status)) (t : Status)
      → env.locked id (w.tick + 1) ≡ false
      → valid_transitions row.status ≡ some entries
      → lookup e entries ≡ some t
      → ((transition env id e w).0 ≡ ok (target id row.status e t w))
        × Moved id (target id row.status e t w) w (transition env id e w).1
  transition_calm entries t free known allowed =
      let answered = transition_answer entries t free known allowed in
      (answered, transition_ok env id e w answered)

  -- With no failing call and the row free, an event that the table does not have for the session's
  -- status is answered with ErrInvalidTransition at the first attempt.
  pub transition_refused :
      (entries : List (Event × Status))
      → env.locked id (w.tick + 1) ≡ false
      → valid_transitions row.status ≡ some entries
      → lookup e entries ≡ none
      → transition env id e w ≡ (err invalid_transition, (try_transition env id e w).1)
  unfolding transition attempts
  transition_refused entries free known refused =
      rw (try_transition_rejected entries free known refused)

-- With no failing call, a session whose row another transaction holds is reported as not found, and
-- at once: the loop takes the skipped row for a missing one and does not try again.
pub transition_locked :
    (env : Env) (id : Uuid) (e : Event) (w : World)
    → ((n : ℕ) → env.fault n ≡ false)
    → env.locked id (w.tick + 1) ≡ true
    → transition env id e w ≡ (err session_not_found, record w { tick = w.tick + 1 + 1 })
unfolding transition attempts try_transition lock_session
transition_locked env id e w calm held = ground (arith, calm w.tick, calm (w.tick + 1))
