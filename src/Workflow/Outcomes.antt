-- ===== src/Workflow/Outcomes.antt =====
-- What Transition does to the tables, on success and on every error.
use microservice_diagnosis.Prelude.{
  ℕ, zero, suc, ◌≡◌, refl, sym, subst, ap, ◌∙◌, List, [], ◌∷◌, ◌++◌, find?, update_where, some,
  arith, Option-cases, Bool-cases, not, ◌||◌, ◌⊎◌, inl, inr,
}
use microservice_diagnosis.Store.Rows.{Uuid, Status, Time, DiagnosticSession, SessionEvent}
use microservice_diagnosis.Store.World.{
  World, Env, M, Error, Result, ok, err, insert, session_not_found, invalid_transition,
}
use microservice_diagnosis.Store.Frames.{
  SameTables, SameRest, SameTables-refl, SameTables-trans, Reads, Atomic, Atomic-bind,
  Atomic-bind_last, SameRest-trans, SameTables-SameRest, invert, ok-injective,
}
use microservice_diagnosis.Store.SessionDao.{find_session, update_session, has_session_id}
use microservice_diagnosis.Store.SessionEventDao.{event_allowed, new_event, log_state_transition}
use microservice_diagnosis.Workflow.Transitions.{Event}
use microservice_diagnosis.Workflow.Engine.{
  settle, lock_session, next_status, write_status, try_transition, attempts, transition,
}
use microservice_diagnosis.Workflow.Graph.{◌⟶◌, next_status-⟶}

SameTables-next_status :
    (env : Env) (id : Uuid) (s : Status) (e : Event) (w : World)
    → SameTables w (next_status env id s e w).1
unfolding next_status
SameTables-next_status env id s e w = grind arith

SameTables-write_status :
    (env : Env) (id : Uuid) (next : Status) (w : World) {x : Error}
    → (write_status env id next w).0 ≡ err x
    → SameTables w (write_status env id next w).1
unfolding write_status
SameTables-write_status env id next w h = ground arith

pub lock_session-Reads : (env : Env) (id : Uuid) → Reads (lock_session env id)
unfolding lock_session
lock_session-Reads env id = record { at = λ w. ground arith }

pub try_transition-Atomic : (env : Env) (id : Uuid) (e : Event) → Atomic (try_transition env id e)
unfolding try_transition
try_transition-Atomic env id e = Atomic-bind _ _ (lock_session-Reads env id) λ status.
    Atomic-bind _ _ (record { at = SameTables-next_status env id status e })
      λ next.
        Atomic-bind_last _ _ (record { at = SameTables-write_status env id next })
          λ done. record { at = λ w. (next, refl) }

settle_error :
    (again : M Status) (r : Result Status) (v w : World) {x : Error}
    → ((y : Error) → r ≡ err y → SameTables v w)
    → Atomic again
    → (settle again r w).0 ≡ err x
    → SameTables v (settle again r w).1
settle_error again (ok t) v w h k e = cc
settle_error again (err session_not_found) v w h k e = h _ refl
settle_error again (err invalid_transition) v w h k e = h _ refl
settle_error again (err y) v w h k e = SameTables-trans (h y refl) (k.at w e)

attempts-Atomic : (n : ℕ) (env : Env) (id : Uuid) (e : Event) → Atomic (attempts n env id e)
unfolding attempts
attempts-Atomic zero env id e = record { at = λ w h. SameTables-refl w }
attempts-Atomic (suc n) env id e = record {
  at = λ w.
      settle_error (attempts n env id e) (try_transition env id e w).0 w
        (try_transition env id e w).1 (λ y q. (try_transition-Atomic env id e).at w q)
        (attempts-Atomic n env id e);
}

-- A Transition that returns an error has changed no table: it is applied whole or not at all.
pub transition_error :
    (env : Env) (id : Uuid) (e : Event) (w : World) {x : Error}
    → (transition env id e w).0 ≡ err x
    → SameTables w (transition env id e w).1
unfolding transition
transition_error env id e w h = (attempts-Atomic 3 env id e).at w h

-- What a logged step looks like, from the events `xs` to the events `ys`.
abbrev Logged : Uuid → Status → Status → List SessionEvent → List SessionEvent → Type 0
Logged id s t xs ys =
    (ys ≡ xs)
    ⊎ ((ev : SessionEvent) × (ys ≡ xs ++ ev ∷ [])
        × (ev.session_id ≡ id)
        × (ev.from_status ≡ s)
        × (ev.to_status ≡ t))

-- From `v` to `w` the session `id` has followed an edge of the diagram to `t`: its row has the new
-- status and a new time, every other row is the same, and the timeline has the step or, where
-- logging it failed, nothing new.
pub record Moved (id : Uuid) (t : Status) (v w : World) : Type 0 where
  pub row : DiagnosticSession
  pub found : find_session id v ≡ some row
  pub edge : row.status ⟶ t
  pub time : Time
  pub sessions :
      w.sessions ≡ (update_session id (λ s. record s { status = t; updated_at = time }) v).sessions
  pub logged : Logged id row.status t v.events w.events
  pub rest : SameRest v w

lock_session_ok :
    (env : Env) (id : Uuid) (w : World) {s : Status}
    → (lock_session env id w).0 ≡ ok s
    → (row : DiagnosticSession) × (find_session id w ≡ some row) × (row.status ≡ s)
unfolding lock_session
lock_session_ok env id w h = elim (Option-cases (find_session id w)) [
  | inl e ↦ absurd (ground arith)
  | inr (row, e) ↦ (row, e, ground arith)
]

write_status_ok :
    (env : Env) (id : Uuid) (t : Status) (w : World) {u : Unit {0}}
    → (write_status env id t w).0 ≡ ok u
    → ((write_status env id t w).1.sessions
        ≡ (update_session id
            (λ s. record s { status = t; updated_at = env.clock w.tick })
            w).sessions)
      × ((write_status env id t w).1.events ≡ w.events)
      × SameRest w (write_status env id t w).1
unfolding write_status
write_status_ok env id t w h = ground arith

log-SameRest :
    (env : Env) (id : Uuid) (s t : Status) (w : World)
    → ((log_state_transition env id s t "workflow" w).1.sessions ≡ w.sessions)
      × SameRest w (log_state_transition env id s t "workflow" w).1
unfolding log_state_transition insert
log-SameRest env id s t w = ground arith

log-Logged :
    (env : Env) (id : Uuid) (s t : Status) (w : World)
    → Logged id s t w.events (log_state_transition env id s t "workflow" w).1.events
unfolding log_state_transition insert
log-Logged env id s t w =
    elim (Bool-cases
      (env.fault w.tick || not (event_allowed (new_event env id s t "workflow" w) w))) [
        | inl e ↦ inl (ground arith)
        | inr e ↦ inr (new_event env id s t "workflow" w, ground arith, refl, refl, refl)
      ]

-- The last step: a session whose row is known is written and the step is logged.
written :
    (env : Env) (id : Uuid) (s t : Status) (v w : World) (row : DiagnosticSession) {u : Unit {0}}
    → SameTables v w
    → find_session id v ≡ some row
    → row.status ≡ s
    → s ⟶ t
    → (write_status env id t w).0 ≡ ok u
    → Moved id t v (log_state_transition env id s t "workflow" (write_status env id t w).1).1
written env id s t v w row same found status edge wrote =
    let w' = (write_status env id t w).1 in
    let final = (log_state_transition env id s t "workflow" w').1 in
    let (wrote_sessions, wrote_events, wrote_rest) = write_status_ok env id t w wrote in
    let (log_sessions, log_rest) = log-SameRest env id s t w' in
    record {
      row = row;
      found = found;
      edge = subst (λ x. x ⟶ t) (sym status) edge;
      time = env.clock w.tick;
      sessions =
          log_sessions
          ∙ wrote_sessions
          ∙ ap
              (update_where (has_session_id id)
                (λ r. record r { status = t; updated_at = env.clock w.tick }))
              same.sessions;
      logged =
          subst (λ x. Logged id x t v.events final.events) (sym status)
            (subst (λ xs. Logged id s t xs final.events) (wrote_events ∙ same.events)
              (log-Logged env id s t w'));
      rest = SameRest-trans (SameTables-SameRest same) (SameRest-trans wrote_rest log_rest);
    }

try_transition_ok :
    (env : Env) (id : Uuid) (e : Event) (w : World) {t : Status}
    → (try_transition env id e w).0 ≡ ok t
    → Moved id t w (try_transition env id e w).1
unfolding try_transition
try_transition_ok env id e w {t} = invert _ (Moved id t w) (lock_session env id) w λ s locked.
    invert _ (Moved id t w) (next_status env id s e) _ λ next chosen.
      invert _ (Moved id t w) (write_status env id next) _ λ done wrote returned.
        let (row, found, status) = lock_session_ok env id w locked in
        let v = (next_status env id s e (lock_session env id w).1).1 in
        let final =
          (log_state_transition env id s next "workflow" (write_status env id next v).1).1 in
        subst (λ x. Moved id x w final) (ok-injective returned)
          (written env id s next w v row
            (SameTables-trans ((lock_session-Reads env id).at w)
              (SameTables-next_status env id s e _))
            found status (next_status-⟶ env id s e _ chosen) wrote)

Moved-after :
    {id : Uuid} {t : Status} {u v w : World} → SameTables u v → Moved id t v w → Moved id t u w
Moved-after {id} {t} {u} {v} {w} h m = record {
  row = m.row;
  found = ap (λ rows. find? (has_session_id id) rows) (sym h.sessions) ∙ m.found;
  edge = m.edge;
  time = m.time;
  sessions =
      m.sessions
      ∙ ap (update_where (has_session_id id) (λ r. record r { status = t; updated_at = m.time }))
          h.sessions;
  logged = subst (λ xs. Logged id m.row.status t xs w.events) h.events m.logged;
  rest = SameRest-trans (SameTables-SameRest h) m.rest;
}

settle_ok :
    (id : Uuid) (again : M Status) (r : Result Status) (v w : World) {t : Status}
    → ((s : Status) → r ≡ ok s → Moved id s v w)
    → ((y : Error) → r ≡ err y → SameTables v w)
    → ((again w).0 ≡ ok t → Moved id t w (again w).1)
    → (settle again r w).0 ≡ ok t
    → Moved id t v (settle again r w).1
settle_ok id again (ok s) v w h k l e = subst (λ x. Moved id x v w) (ok-injective e) (h s refl)
settle_ok id again (err session_not_found) v w h k l e = cc
settle_ok id again (err invalid_transition) v w h k l e = cc
settle_ok id again (err y) v w h k l e = Moved-after (k y refl) (l e)

attempts_ok :
    (n : ℕ) (env : Env) (id : Uuid) (e : Event) (w : World) {t : Status}
    → (attempts n env id e w).0 ≡ ok t
    → Moved id t w (attempts n env id e w).1
unfolding attempts
attempts_ok zero env id e w h = cc
attempts_ok (suc n) env id e w h =
    settle_ok id (attempts n env id e) (try_transition env id e w).0 w (try_transition env id e w).1
      (λ s q. try_transition_ok env id e w q) (λ y q. (try_transition-Atomic env id e).at w q)
      (λ q. attempts_ok n env id e _ q) h

-- A Transition that returns a status has moved the session to that status along an edge of
-- Workflow.Graph, which has the edges of PLAN.md section 5.2 that leave an active status and two more,
-- from FIX_PROPOSED and FIX_SUGGESTED to FIX_EXECUTING, and it has changed nothing else but the timeline.
pub transition_ok :
    (env : Env) (id : Uuid) (e : Event) (w : World) {t : Status}
    → (transition env id e w).0 ≡ ok t
    → Moved id t w (transition env id e w).1
unfolding transition
transition_ok env id e w h = attempts_ok 3 env id e w h

-- Whatever it returns, a Transition leaves the fix actions, the approvals and what has been sent
-- and executed as they are.
pub transition-rest :
    (env : Env) (id : Uuid) (e : Event) (w : World) → SameRest w (transition env id e w).1
transition-rest env id e w = by_result (transition env id e w).0 refl
  where
    by_result :
        (r : Result Status) → (transition env id e w).0 ≡ r → SameRest w (transition env id e w).1
    by_result (ok t) q = (transition_ok env id e w q).rest
    by_result (err x) q = SameTables-SameRest (transition_error env id e w q)
