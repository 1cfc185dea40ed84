-- ===== src/Workflow/Declared.antt =====
-- The statuses of the sessions are the constants that the program declares: the engine and the sweeps
-- write no other.
use microservice_diagnosis.Prelude.{
  All-update_where, List, update_where, All, ◌≡◌, refl, sym, subst,
}
use microservice_diagnosis.Store.Rows.{Uuid, Time, Status, DiagnosticSession}
use microservice_diagnosis.Store.World.{World, Env, Result, ok, err}
use microservice_diagnosis.Store.Preserves.{Preserves}
use microservice_diagnosis.Store.SessionDao.{has_session_id}
use microservice_diagnosis.Workflow.Transitions.{Event}
use microservice_diagnosis.Workflow.Graph
use microservice_diagnosis.Workflow.Graph.{◌⟶◌, ignore}
use microservice_diagnosis.Workflow.Engine.{transition}
use microservice_diagnosis.Workflow.Outcomes.{transition_ok, transition_error}

abbrev pub IsDeclared : Status → Type 0
IsDeclared (Status.other s) = ⊥
IsDeclared _ = Unit

abbrev pub HasDeclared : DiagnosticSession → Type 0
HasDeclared s = IsDeclared s.status

-- Every session has one of the declared statuses.
abbrev pub AllDeclared : World → Type 0
AllDeclared w = All HasDeclared w.sessions

edge-IsDeclared : {s t : Status} → s ⟶ t → IsDeclared t
edge-IsDeclared (ignore a) = tt
edge-IsDeclared (Graph.fail a) = tt
edge-IsDeclared _ = tt

moved-AllDeclared :
    (id : Uuid) (t : Status) (time : Time) (ss : List DiagnosticSession)
    → IsDeclared t
    → All HasDeclared ss
    → All HasDeclared
        (update_where (has_session_id id) (λ s. record s { status = t; updated_at = time }) ss)
moved-AllDeclared id t time ss d = All-update_where HasDeclared (has_session_id id) _ ss (λ s h. d)

module _ (env : Env) where
  transition_at :
      (id : Uuid) (e : Event) (w : World) (r : Result Status)
      → (transition env id e w).0 ≡ r
      → AllDeclared w
      → AllDeclared (transition env id e w).1
  transition_at id e w (ok t) q h =
      let m = transition_ok env id e w q in
      subst (All HasDeclared) (sym m.sessions)
        (moved-AllDeclared id t m.time w.sessions (edge-IsDeclared m.edge) h)
  transition_at id e w (err x) q h =
      subst (All HasDeclared) (sym (transition_error env id e w q).sessions) h

  pub transition-AllDeclared : (id : Uuid) (e : Event) → Preserves AllDeclared (transition env id e)
  transition-AllDeclared id e = record {
    at = λ w h. transition_at id e w (transition env id e w).0 refl h;
  }
