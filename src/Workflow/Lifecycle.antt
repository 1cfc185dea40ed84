-- ===== src/Workflow/Lifecycle.antt =====
-- What the diagram and the engine say about the whole life of a session.
use microservice_diagnosis.Prelude.{
  ℕ, ◌≤◌, ◌<◌, true, false, none, some, ◌≡◌, refl, subst, ◌≢◌, arith, ◌↔◌, ◌⊎◌, inl, inr,
}
use microservice_diagnosis.Store.Rows.{
  Uuid, Status, created, collecting, analyzing, rca_done, fix_proposed, awaiting_approval,
  fix_suggested, fix_executing, verifying, ignored, resolved, rejected, rolled_back, failed,
  DiagnosticSession,
}
use microservice_diagnosis.Store.World.{World, Env, Error, Result, ok, err}
use microservice_diagnosis.Store.Frames.{SameTables}
use microservice_diagnosis.Store.SessionDao.{find_session}
use microservice_diagnosis.Workflow.Transitions.{Event, valid_transitions, is_terminal}
use microservice_diagnosis.Workflow.Engine.{transition}
use microservice_diagnosis.Workflow.Graph.{IsActive, in_created, ◌⟶◌, active, collect, ignore, fail}
use microservice_diagnosis.Workflow.Outcomes.{transition_ok, transition_error}

⟶-IsActive : {s t : Status} → s ⟶ t → IsActive s
⟶-IsActive (ignore a) = a
⟶-IsActive (fail a) = a
⟶-IsActive collect = in_created
⟶-IsActive _ = search active

not-IsActive-terminal : {s : Status} → IsActive s → is_terminal s ≡ false
unfolding is_terminal
not-IsActive-terminal in_created = refl
not-IsActive-terminal _ = refl

terminal-cases :
    (s : Status)
    → (valid_transitions s ≡ none)
      ⊎ (is_terminal s ≡ true) × (valid_transitions s ≢ none)
      ⊎ IsActive s
unfolding is_terminal valid_transitions
terminal-cases s = grind (arith, active)

-- IsTerminal answers true for exactly the keys of the table that no edge of the diagram leaves.
pub is_terminal_iff :
    (s : Status)
    → (is_terminal s ≡ true) ↔ ((valid_transitions s ≢ none) × ((t : Status) → ¬ (s ⟶ t)))
is_terminal_iff s = (
  λ h. (
    elim (terminal-cases s) [
      | inl e ↦ absurd (unfold is_terminal in ground arith)
      | inr (inl k) ↦ k.1
      | inr (inr a) ↦ absurd (ground (arith, not-IsActive-terminal a))
    ],
    λ t e. absurd (ground (arith, not-IsActive-terminal (⟶-IsActive e))),
  ),
  λ h. elim (terminal-cases s) [
    | inl e ↦ absurd (h.0 e)
    | inr (inl k) ↦ k.0
    | inr (inr a) ↦ absurd (h.1 ignored (ignore a))
  ],
)

-- How far along the diagram a status stands.
abbrev pub rank : Status → ℕ
rank created = 0
rank collecting = 1
rank analyzing = 2
rank rca_done = 3
rank fix_proposed = 4
rank awaiting_approval = 5
rank fix_suggested = 5
rank fix_executing = 6
rank verifying = 7
rank _ = 8

IsActive-rank : {s : Status} → IsActive s → rank s < 8
IsActive-rank in_created = omega arith
IsActive-rank _ = omega arith

pub rank-⟶ : {s t : Status} → s ⟶ t → rank s < rank t
rank-⟶ (ignore a) = IsActive-rank a
rank-⟶ (fail a) = IsActive-rank a
rank-⟶ collect = omega arith
rank-⟶ _ = omega arith

pub rank-le : (s : Status) → rank s ≤ 8
rank-le s = ground arith

-- The statuses that PLAN.md section 5.1 calls terminal, but for FIX_SUGGESTED.
pub data IsEnded : Status → Type 0 where
  is_resolved : IsEnded resolved
  is_rejected : IsEnded rejected
  is_rolled_back : IsEnded rolled_back
  is_failed : IsEnded failed
  is_ignored : IsEnded ignored

IsEnded-terminal : {s : Status} → IsEnded s → is_terminal s ≡ true
unfolding is_terminal
IsEnded-terminal is_resolved = refl
IsEnded-terminal _ = refl

transition_ended_error :
    (env : Env) (id : Uuid) (e : Event) (w : World) (row : DiagnosticSession) (t : Status)
    → find_session id w ≡ some row
    → IsEnded row.status
    → (transition env id e w).0 ≢ ok t
transition_ended_error env id e w row t found ended returned =
    let m = transition_ok env id e w returned in
    let same : m.row ≡ row = cc (m.found, found) in
    let last = (is_terminal_iff row.status).0 (IsEnded-terminal ended) in
    last.1 t (subst (λ r. r.status ⟶ t) same m.edge)

-- RESOLVED, REJECTED, ROLLED_BACK, FAILED and IGNORED are final: whatever the event, and whatever fails
-- on the way, a Transition of a session in one of them returns an error and changes no table, neither
-- the sessions nor the timeline.
pub transition_ended :
    (env : Env) (id : Uuid) (e : Event) (w : World) (row : DiagnosticSession)
    → find_session id w ≡ some row
    → IsEnded row.status
    → ((x : Error) × ((transition env id e w).0 ≡ err x)) × SameTables w (transition env id e w).1
transition_ended env id e w row found ended = by_result (transition env id e w).0 refl
  where
    by_result :
        (r : Result Status)
        → (transition env id e w).0 ≡ r
        → ((x : Error) × ((transition env id e w).0 ≡ err x))
          × SameTables w (transition env id e w).1
    by_result (ok t) q = absurd (transition_ended_error env id e w row t found ended q)
    by_result (err x) q = ((x, q), transition_error env id e w q)
