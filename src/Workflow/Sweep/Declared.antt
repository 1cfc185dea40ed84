-- ===== src/Workflow/Sweep/Declared.antt =====
-- The sweeps write declared statuses only.
use microservice_diagnosis.Prelude.{List, [], ◌∷◌, ◌≡◌, refl, Bool-cases, inl, inr, arith}
use microservice_diagnosis.Store.Rows.{Uuid, Status}
use microservice_diagnosis.Store.World.{World, Env, M, ◌>>=◌, call, query, advance}
use microservice_diagnosis.Store.Preserves.{
  Preserves, Preserves-bind, Preserves-sessions, preserves_rules,
}
use microservice_diagnosis.Store.FixActionDao.{get_by_session_id}
use microservice_diagnosis.Workflow.Transitions.{fail, fix_generated}
use microservice_diagnosis.Workflow.Declared.{HasDeclared, AllDeclared, transition-AllDeclared}
use microservice_diagnosis.Workflow.Sweep.{
  for_each, sweep, sweep_fix_proposed, sweep_verifying, sweep_round, verify_session,
}

pub get_fixes-AllDeclared :
    (env : Env) (id : Uuid) → Preserves AllDeclared (get_by_session_id env id)
unfolding get_by_session_id
get_fixes-AllDeclared env id =
    Preserves-sessions HasDeclared (get_by_session_id env id) (λ w. ground arith)

module _ (env : Env) where
  query-AllDeclared : {A : Type 0} (f : World → A) → Preserves AllDeclared (query env f)
  unfolding query
  query-AllDeclared f = Preserves-sessions HasDeclared (query env f) (λ w. kept f w)
    where
      kept : {A : Type 0} (f : World → A) (w : World) → (query env f w).1.sessions ≡ w.sessions
      kept f w = elim (Bool-cases (env.fault w.tick)) [ inl e ↦ rw e refl | inr e ↦ rw e refl ]

  for_each-AllDeclared :
      (body : Uuid → M Status) (ids : List Uuid)
      → ((id : Uuid) → Preserves AllDeclared (body id))
      → (w : World) → AllDeclared w
      → AllDeclared (for_each env body ids w).1
  unfolding for_each call
  for_each-AllDeclared body [] k w h = h
  for_each-AllDeclared body (id ∷ ids) k w h = elim (Bool-cases (env.fault w.tick)) [
    | inl e ↦ simp (e) (for_each-AllDeclared body ids k (advance w) h)
    | inr e ↦
        simp (e) (for_each-AllDeclared body ids k (body id (advance w)).1 ((k id).at (advance w) h))
  ]

  swept :
      (body : Uuid → M Status) (select : World → List Uuid)
      → ((id : Uuid) → Preserves AllDeclared (body id))
      → Preserves AllDeclared (query env select >>= for_each env body)
  swept body select k =
      Preserves-bind (query env select) (for_each env body) (query-AllDeclared select)
        (λ ids. record { at = for_each-AllDeclared body ids k })

  sweep-AllDeclared : Preserves AllDeclared (sweep env)
  unfolding sweep
  sweep-AllDeclared = swept _ _ (λ id. transition-AllDeclared env id fail)

  sweep_fix_proposed-AllDeclared : Preserves AllDeclared (sweep_fix_proposed env)
  unfolding sweep_fix_proposed
  sweep_fix_proposed-AllDeclared = swept _ _ (λ id. transition-AllDeclared env id fix_generated)

  verify_session-AllDeclared : (id : Uuid) → Preserves AllDeclared (verify_session env id)
  unfolding verify_session
  verify_session-AllDeclared id =
      search (preserves_rules, get_fixes-AllDeclared, transition-AllDeclared)

  sweep_verifying-AllDeclared : Preserves AllDeclared (sweep_verifying env)
  unfolding sweep_verifying
  sweep_verifying-AllDeclared = swept _ _ verify_session-AllDeclared

  pub sweep_round-AllDeclared : Preserves AllDeclared (sweep_round env)
  unfolding sweep_round
  sweep_round-AllDeclared = search (
    preserves_rules, sweep-AllDeclared, sweep_fix_proposed-AllDeclared, sweep_verifying-AllDeclared,
  )
