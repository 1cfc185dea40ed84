-- ===== src/Store/KnowledgeBaseDao/Usage.antt =====
-- What the calls of IncrementUsage leave in the table.
use microservice_diagnosis.Prelude.{
  ◌≤◌, Bool, true, false, ◌||◌, some, List, [], ◌∷◌, any, update_where, ◌≡◌, arith, String, subst,
  Bool-cases, inl, inr, All, All-sort_by, All-filter,
}
use microservice_diagnosis.Store.Rows.{Uuid}
use microservice_diagnosis.Store.KnowledgeBaseDao.{
  Postgres, FixKnowledge, matches, ranks_before, search_by_root_cause, has_knowledge_id, counted,
  overflows, max_int, increment_usage,
}

module _ (pg : Postgres) where
  -- No use count is out of the range of its column.
  abbrev pub InRange : List (FixKnowledge pg) → Type 0
  InRange rows = All (λ (e : FixKnowledge pg). e.times_used ≤ max_int pg) rows

  InRange-update_where :
      (id : Uuid) (success : Bool) (rows : List (FixKnowledge pg))
      → any (overflows pg id) rows ≡ false
      → InRange rows
      → InRange (update_where (has_knowledge_id pg id) (counted pg success) rows)
  InRange-update_where id success [] h r = tt
  InRange-update_where id success (e ∷ rows) h (here, rest) =
      elim (Bool-cases (has_knowledge_id pg id e)) [
        | inl same ↦
            rw same (ground arith, InRange-update_where id success rows (ground arith) rest)
        | inr other ↦ rw other (here, InRange-update_where id success rows (ground arith) rest)
      ]

  -- IncrementUsage keeps the use counts in the range of their column, whether it fails or not.
  pub increment_usage-InRange :
      (fails : Bool) (id : Uuid) (success : Bool) (rows : List (FixKnowledge pg))
      → InRange rows
      → InRange (increment_usage pg fails id success rows).1
  unfolding increment_usage
  increment_usage-InRange fails id success rows r =
      elim (Bool-cases (fails || any (overflows pg id) rows)) [
        | inl e ↦ rw e r
        | inr e ↦ rw e (InRange-update_where id success rows (ground arith) r)
      ]

  -- What SearchByRootCause returns are entries whose pattern contains the one that was asked for.
  pub search_by_root_cause-matches :
      (pattern : String) (rows found : List (FixKnowledge pg))
      → search_by_root_cause pg false pattern rows ≡ some found
      → All (λ (e : FixKnowledge pg). matches pg pattern e ≡ true) found
  unfolding search_by_root_cause
  search_by_root_cause-matches pattern rows found h =
      subst (λ es. All (λ (e : FixKnowledge pg). matches pg pattern e ≡ true) es) (ground arith)
        (All-sort_by _ (ranks_before pg) _ (All-filter _ (matches pg pattern) rows (λ e k. k)))
