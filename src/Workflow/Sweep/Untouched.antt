-- ===== src/Workflow/Sweep/Untouched.antt =====
-- The rows that a sweep leaves alone.
use microservice_diagnosis.Prelude.{
  ℕ, Bool, false, ◌||◌, List, [], ◌∷◌, map, filter, update_where, All, ◌==◌, ◌≡◌, ◌∙◌, refl, sym,
  subst, ap, arith, Bool-cases, inl, inr,
}
use microservice_diagnosis.Store.Rows.{
  Uuid, Status, is_status, collecting, fix_proposed, verifying, DiagnosticSession,
}
use microservice_diagnosis.Store.World.{World, Env, M, Result, ok, err, call, query, advance}
use microservice_diagnosis.Store.SessionDao.{has_session_id}
use microservice_diagnosis.Store.FixActionDao.{get_by_session_id}
use microservice_diagnosis.Workflow.Transitions.{Event, fail, fix_generated}
use microservice_diagnosis.Workflow.Engine.{transition}
use microservice_diagnosis.Workflow.Outcomes.{transition_ok, transition_error}
use microservice_diagnosis.Workflow.Sweep.{
  for_each, sweep, sweep_fix_proposed, sweep_verifying, sweep_round, verify_session,
}

abbrev pub rows_of : Uuid → World → List DiagnosticSession
rows_of j w = filter (has_session_id j) w.sessions

rows_of-update :
    (id j : Uuid) (t : Status) (time : ℕ) (ss : List DiagnosticSession)
    → (id == j) ≡ false
    → filter
        (has_session_id j)
        (update_where (has_session_id id) (λ s. record s { status = t; updated_at = time }) ss)
      ≡ filter (has_session_id j) ss
rows_of-update id j t time [] h = refl
rows_of-update id j t time (s ∷ ss) h = ground (arith, rows_of-update id j t time ss h)

-- A Transition of one session leaves the rows of every other as they are.
pub transition-rows_of :
    (env : Env) (id j : Uuid) (e : Event) (w : World)
    → (id == j) ≡ false
    → rows_of j (transition env id e w).1 ≡ rows_of j w
transition-rows_of env id j e w h = by_result (transition env id e w).0 refl
  where
    by_result :
        (r : Result Status)
        → (transition env id e w).0 ≡ r
        → rows_of j (transition env id e w).1 ≡ rows_of j w
    by_result (ok t) q =
        let m = transition_ok env id e w q in
        ap (filter (has_session_id j)) m.sessions ∙ rows_of-update id j t m.time w.sessions h
    by_result (err x) q = ap (filter (has_session_id j)) (transition_error env id e w q).sessions

abbrev NotIn : Uuid → List Uuid → Type 0
NotIn j = All (λ id. (id == j) ≡ false)

module _ (env : Env) (j : Uuid) (body : Uuid → M Status)
    (leaves : (id : Uuid) (w : World)
      → (id == j) ≡ false
      → rows_of j (body id w).1 ≡ rows_of j w) where
  for_each-rows_of :
      (ids : List Uuid) (w : World)
      → NotIn j ids
      → rows_of j (for_each env body ids w).1 ≡ rows_of j w
  unfolding for_each call
  for_each-rows_of [] w h = refl
  for_each-rows_of (id ∷ ids) w h = elim (Bool-cases (env.fault w.tick)) [
    | inl e ↦ rw e (for_each-rows_of ids (advance w) h.1)
    | inr e ↦ rw e (for_each-rows_of ids (body id (advance w)).1 h.1 ∙ leaves id (advance w) h.0)
  ]

-- No row of the session `j` passes the test.
NotIn-select_ids :
    (p : DiagnosticSession → Bool) (j : Uuid) (ss : List DiagnosticSession)
    → All (λ s. p s ≡ false) (filter (has_session_id j) ss)
    → NotIn j (map (λ s. s.id) (filter p ss))
NotIn-select_ids p j [] h = tt
NotIn-select_ids p j (s ∷ ss) h = elim (Bool-cases (s.id == j)) [
  | inl same ↦ let k = rw same at h in rw (k.0) (NotIn-select_ids p j ss k.1)
  | inr other ↦
      let k = rw other at h in
      elim (Bool-cases (p s)) [
        | inl passes ↦ rw passes (other, NotIn-select_ids p j ss k)
        | inr fails ↦ rw fails (NotIn-select_ids p j ss k)
      ]
]

-- The statuses that some sweep looks for.
abbrev is_swept : Status → Bool
is_swept s = is_status collecting s || is_status fix_proposed s || is_status verifying s

abbrev NoneSwept : Uuid → World → Type 0
NoneSwept j w = All (λ s. is_swept s.status ≡ false) (rows_of j w)

All-weaken :
    (p : DiagnosticSession → Bool) (ss : List DiagnosticSession)
    → ((s : DiagnosticSession) → is_swept s.status ≡ false → p s ≡ false)
    → All (λ s. is_swept s.status ≡ false) ss
    → All (λ s. p s ≡ false) ss
All-weaken p [] k h = tt
All-weaken p (s ∷ ss) k h = (k s h.0, All-weaken p ss k h.1)

module _ (env : Env) (j : Uuid) where
  sweep-rows_of : (w : World) → NoneSwept j w → rows_of j (sweep env w).1 ≡ rows_of j w
  unfolding sweep query
  sweep-rows_of w h = elim (Bool-cases (env.fault w.tick)) [
    | inl e ↦ rw e
    | inr e ↦ rw e (
        for_each-rows_of env j _ (λ id v k. transition-rows_of env id j fail v k) _ (advance w)
          (NotIn-select_ids _ j w.sessions (All-weaken _ _ (λ s k. ground arith) h)))
  ]

  sweep_fix_proposed-rows_of :
      (w : World) → NoneSwept j w → rows_of j (sweep_fix_proposed env w).1 ≡ rows_of j w
  unfolding sweep_fix_proposed query
  sweep_fix_proposed-rows_of w h = elim (Bool-cases (env.fault w.tick)) [
    | inl e ↦ rw e
    | inr e ↦ rw e (
        for_each-rows_of env j _ (λ id v k. transition-rows_of env id j fix_generated v k) _
          (advance w) (NotIn-select_ids _ j w.sessions (All-weaken _ _ (λ s k. ground arith) h)))
  ]

  verify_session-rows_of :
      (id : Uuid) (w : World)
      → (id == j) ≡ false
      → rows_of j (verify_session env id w).1 ≡ rows_of j w
  unfolding verify_session get_by_session_id query
  verify_session-rows_of id w h =
      transition-rows_of env id j _ _ h
      ∙ (elim (Bool-cases (env.fault w.tick)) [ inl e ↦ rw e | inr e ↦ rw e ])

  sweep_verifying-rows_of :
      (w : World) → NoneSwept j w → rows_of j (sweep_verifying env w).1 ≡ rows_of j w
  unfolding sweep_verifying query
  sweep_verifying-rows_of w h = elim (Bool-cases (env.fault w.tick)) [
    | inl e ↦ rw e
    | inr e ↦ rw e (
        for_each-rows_of env j _ verify_session-rows_of _ (advance w)
          (NotIn-select_ids _ j w.sessions (All-weaken _ _ (λ s k. ground arith) h)))
  ]

  -- A session that is in none of COLLECTING, FIX_PROPOSED and VERIFYING keeps its row through every
  -- tick of the sweep loop.
  pub sweep_round-rows_of :
      (w : World) → NoneSwept j w → rows_of j (sweep_round env w).1 ≡ rows_of j w
  unfolding sweep_round
  sweep_round-rows_of w h =
      let first = sweep-rows_of w h in
      let h' = subst (All (λ s. is_swept s.status ≡ false)) (sym first) h in
      let second = sweep_fix_proposed-rows_of (sweep env w).1 h' in
      let h'' = subst (All (λ s. is_swept s.status ≡ false)) (sym second) h' in
      sweep_verifying-rows_of (sweep_fix_proposed env (sweep env w).1).1 h'' ∙ second ∙ first
