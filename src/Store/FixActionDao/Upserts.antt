-- ===== src/Store/FixActionDao/Upserts.antt =====
-- What an Upsert leaves in the table of fix actions.
use microservice_diagnosis.Prelude.{
  ℕ, suc, length, filter, true, false, Option, none, some, List, [], ◌∷◌, ◌++◌, find?, any,
  update_where, ◌==◌, ◌≡◌, refl, ap, sym, ◌∙◌, subst, ==_iff, arith, if◌then◌else◌, Bool-cases, not,
  ◌||◌, inl, inr,
}
use microservice_diagnosis.Store.Rows.{Uuid, FixAction}
use microservice_diagnosis.Store.World.{World, Env, ok}
use microservice_diagnosis.Store.FixActionDao.{
  has_fix_id, overwrite, upsert_row, upsert_as, upsert, upsert_allowed, with_id,
}

-- The row that a row or no row of the table becomes, column by column.
abbrev pub merged : FixAction → Option FixAction → FixAction
merged fa none = fa
merged fa (some old) = record {
  id = old.id;
  session_id = old.session_id;
  seq = old.seq;
  action_type = fa.action_type;
  target = fa.target;
  risk = fa.risk;
  rollback_plan = fa.rollback_plan;
  requires_approval = fa.requires_approval;
  approval_status = fa.approval_status;
  execution_status = fa.execution_status;
  ticket_id = fa.ticket_id;
  created_at = old.created_at;
  updated_at = fa.updated_at;
}

-- The number of rows with an id.
abbrev pub rows_with : Uuid → List FixAction → ℕ
rows_with id rows = length (filter (has_fix_id id) rows)

module _ (fa : FixAction) where
  find?-update_where :
      (rows : List FixAction)
      → any (has_fix_id fa.id) rows ≡ true
      → find? (has_fix_id fa.id) (update_where (has_fix_id fa.id) (overwrite fa) rows)
        ≡ some (merged fa (find? (has_fix_id fa.id) rows))
  find?-update_where [] h = ground arith
  find?-update_where (g ∷ rows) h = elim (Bool-cases (g.id == fa.id)) [
    | inl e ↦ rw (e, e) refl
    | inr e ↦ rw (e, e) (find?-update_where rows (ground arith))
  ]

  find?-update_where_other :
      (j : Uuid) (rows : List FixAction)
      → (fa.id == j) ≡ false
      → find? (has_fix_id j) (update_where (has_fix_id fa.id) (overwrite fa) rows)
        ≡ find? (has_fix_id j) rows
  find?-update_where_other j [] h = refl
  find?-update_where_other j (g ∷ rows) h = elim (Bool-cases (g.id == fa.id)) [
    | inl e ↦
        let other : (g.id == j) ≡ false = ground arith in
        rw (e, other) (find?-update_where_other j rows h)
    | inr e ↦ rw (e, find?-update_where_other j rows h) refl
  ]

  find?-append_new :
      (rows : List FixAction)
      → any (has_fix_id fa.id) rows ≡ false
      → find? (has_fix_id fa.id) (rows ++ fa ∷ [])
        ≡ some (merged fa (find? (has_fix_id fa.id) rows))
  find?-append_new [] h = ground arith
  find?-append_new (g ∷ rows) h = ground (arith, find?-append_new rows)

  find?-append_other :
      (j : Uuid) (rows : List FixAction)
      → (fa.id == j) ≡ false
      → find? (has_fix_id j) (rows ++ fa ∷ []) ≡ find? (has_fix_id j) rows
  find?-append_other j [] h = ground arith
  find?-append_other j (g ∷ rows) h = ground (arith, find?-append_other j rows h)

  upsert_row_lem :
      (w : World)
      → find? (has_fix_id fa.id) (upsert_row fa w).fixes
        ≡ some (merged fa (find? (has_fix_id fa.id) w.fixes))
  upsert_row_lem w = elim (Bool-cases (any (has_fix_id fa.id) w.fixes)) [
    | inl e ↦ rw e (find?-update_where w.fixes e)
    | inr e ↦ rw e (find?-append_new w.fixes e)
  ]

  upsert_row_other :
      (j : Uuid) (w : World)
      → (fa.id == j) ≡ false
      → find? (has_fix_id j) (upsert_row fa w).fixes ≡ find? (has_fix_id j) w.fixes
  upsert_row_other j w h = elim (Bool-cases (any (has_fix_id fa.id) w.fixes)) [
    | inl e ↦ rw e (find?-update_where_other j w.fixes h)
    | inr e ↦ rw e (find?-append_other j w.fixes h)
  ]

  find?-upsert_row :
      (j : Uuid) (w : World)
      → find? (has_fix_id j) (upsert_row fa w).fixes ≡ (
          if fa.id == j
          then some (merged fa (find? (has_fix_id fa.id) w.fixes))
          else find? (has_fix_id j) w.fixes)
  find?-upsert_row j w = elim (Bool-cases (fa.id == j)) [
    | inl e ↦ rw e (
        ap (λ k. find? (has_fix_id k) (upsert_row fa w).fixes) (sym ((==_iff fa.id j).0 e))
        ∙ upsert_row_lem w)
    | inr e ↦ rw e (upsert_row_other j w e)
  ]

  rows_with-update_where :
      (rows : List FixAction)
      → rows_with fa.id (update_where (has_fix_id fa.id) (overwrite fa) rows) ≡ rows_with fa.id rows
  rows_with-update_where [] = refl
  rows_with-update_where (g ∷ rows) = elim (Bool-cases (g.id == fa.id)) [
    | inl e ↦ rw (e, e) (ap suc (rows_with-update_where rows))
    | inr e ↦ rw (e, e) (rows_with-update_where rows)
  ]

  rows_with-append_new :
      (rows : List FixAction)
      → any (has_fix_id fa.id) rows ≡ false
      → rows_with fa.id (rows ++ fa ∷ []) ≡ 1
  rows_with-append_new [] h = ground arith
  rows_with-append_new (g ∷ rows) h = ground (arith, rows_with-append_new rows)

  rows_with-upsert_row :
      (w : World)
      → rows_with fa.id (upsert_row fa w).fixes
        ≡ (if any (has_fix_id fa.id) w.fixes then rows_with fa.id w.fixes else 1)
  rows_with-upsert_row w = elim (Bool-cases (any (has_fix_id fa.id) w.fixes)) [
    | inl e ↦ rw e (rows_with-update_where w.fixes)
    | inr e ↦ rw e (rows_with-append_new w.fixes e)
  ]

  upsert_as_ok :
      (env : Env) (id : Uuid) (w : World)
      → (upsert_as env fa w).0 ≡ ok id
      → (fa.id ≡ id) × ((upsert_as env fa w).1.fixes ≡ (upsert_row fa w).fixes)
  unfolding upsert_as
  upsert_as_ok env id w h = elim (Bool-cases (env.fault w.tick || not (upsert_allowed fa w))) [
    | inl e ↦ ground arith
    | inr e ↦ (ground arith, rw e refl)
  ]

-- An Upsert that returns an id has left under it the action as it was given, or, where the table had a
-- row of that id, the columns of the action with the session, the sequence number and the creation time
-- of that row. There is one row of the id, or as many as before where there were some. What is found
-- under any other id has not changed. The id is that of the action, or a new one if it had none.
pub upsert_lem :
    (env : Env) (fa : FixAction) (id j : Uuid) (w : World)
    → (upsert env fa w).0 ≡ ok id
    → (id ≡ (if fa.id == 0 then env.new_uuid w.tick else fa.id))
      × (find? (has_fix_id j) (upsert env fa w).1.fixes ≡ (
          if id == j
          then some (merged (record fa { id = id }) (find? (has_fix_id id) w.fixes))
          else find? (has_fix_id j) w.fixes))
      × (rows_with id (upsert env fa w).1.fixes
          ≡ (if any (has_fix_id id) w.fixes then rows_with id w.fixes else 1))
unfolding upsert
upsert_lem env fa id j w h =
    let (same, rows) = upsert_as_ok (with_id env fa w) env id w h in
    let row : FixAction = with_id env fa w in
    (
      sym same,
      subst
          (λ k. find? (has_fix_id j) (upsert env fa w).1.fixes ≡ (
            if k == j
            then some (merged (record fa { id = k }) (find? (has_fix_id k) w.fixes))
            else find? (has_fix_id j) w.fixes))
          same (ap (λ rs. find? (has_fix_id j) rs) rows ∙ find?-upsert_row row j w),
      subst
          (λ k.
            rows_with k (upsert env fa w).1.fixes
            ≡ (if any (has_fix_id k) w.fixes then rows_with k w.fixes else 1))
          same (ap (λ rs. rows_with row.id rs) rows ∙ rows_with-upsert_row row w),
    )
