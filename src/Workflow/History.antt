-- ===== src/Workflow/History.antt =====
-- How often a session can move.
use microservice_diagnosis.Prelude.{
  ℕ, suc, ◌+◌, ◌≤◌, ◌<◌, Option, none, some, List, [], ◌∷◌, ◌≡◌, refl, sym, ◌∙◌, ap, arith, find?,
  update_where, Bool-cases, inl, inr,
}
use microservice_diagnosis.Store.Rows.{Uuid, Status, DiagnosticSession}
use microservice_diagnosis.Store.World.{World, Env, ok}
use microservice_diagnosis.Store.SessionDao.{find_session, has_session_id}
use microservice_diagnosis.Workflow.Transitions.{Event}
use microservice_diagnosis.Workflow.Engine.{transition}
use microservice_diagnosis.Workflow.Outcomes.{Moved, transition_ok}
use microservice_diagnosis.Workflow.Lifecycle.{rank, rank-⟶, rank-le}

-- A history of a session from one world to another in which `n` calls of Transition have moved it.
-- Between the calls anything may happen that leaves the session's row as it is.
pub data Moves (env : Env) (id : Uuid) : ℕ → World → World → Type 0 where
  start : {w : World} → Moves env id 0 w w
  wait :
      {n : ℕ} {u v w : World}
      → find_session id v ≡ find_session id u
      → Moves env id n v w
      → Moves env id n u w
  move :
      {n : ℕ} {u w : World} (e : Event) (t : Status)
      → (transition env id e u).0 ≡ ok t
      → Moves env id n (transition env id e u).1 w
      → Moves env id (suc n) u w

abbrev rank_of : Option DiagnosticSession → ℕ
rank_of none = 0
rank_of (some row) = rank row.status

rank_of-le : (row : Option DiagnosticSession) → rank_of row ≤ 8
rank_of-le none = omega arith
rank_of-le (some row) = rank-le row.status

abbrev moved : Status → ℕ → DiagnosticSession → DiagnosticSession
moved t now s = record s { status = t; updated_at = now }

find?-update_where :
    (id : Uuid) (t : Status) (now : ℕ) (ss : List DiagnosticSession) (row : DiagnosticSession)
    → find? (has_session_id id) ss ≡ some row
    → rank_of (find? (has_session_id id) (update_where (has_session_id id) (moved t now) ss))
      ≡ rank t
find?-update_where id t now [] row h = ground arith
find?-update_where id t now (s ∷ ss) row h = elim (Bool-cases (has_session_id id s)) [
  | inl e ↦ rw (e, e) refl
  | inr e ↦ rw (e, e) (find?-update_where id t now ss row (ground arith))
]

Moved-rank :
    (id : Uuid) (t : Status) (v w : World)
    → Moved id t v w
    → rank_of (find_session id v) < rank_of (find_session id w)
Moved-rank id t v w m =
    let now : rank_of (find_session id w) ≡ rank t =
      ap (λ ss. rank_of (find? (has_session_id id) ss)) m.sessions
      ∙ find?-update_where id t m.time v.sessions m.row m.found in
    let before : rank_of (find_session id v) ≡ rank m.row.status = ap rank_of m.found in
    rw (now, before) (rank-⟶ m.edge)

Moves-rank :
    {env : Env} {id : Uuid} {n : ℕ} {u w : World}
    → Moves env id n u w
    → n + rank_of (find_session id u) ≤ 8
Moves-rank {id = id} {w = w} start = omega (arith, rank_of-le (find_session id w))
Moves-rank (wait same h) = rw (sym (ap rank_of same)) (Moves-rank h)
Moves-rank {env} {id} {u = u} (move e t done h) =
    omega (arith, Moves-rank h, Moved-rank id t u _ (transition_ok env id e u done))

-- A session is moved at most eight times in its life, however the calls of Transition fail and
-- whatever else happens to the tables between them, as long as only Transition writes its row.
pub Moves-le : {env : Env} {id : Uuid} {n : ℕ} {u w : World} → Moves env id n u w → n ≤ 8
Moves-le h = omega (arith, Moves-rank h)
