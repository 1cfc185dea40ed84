-- ===== src/Store/KnowledgeBaseDao.antt =====
-- internal/store/fix_action.go: KnowledgeBaseDAO over the table fix_knowledge_base. ILIKE and the
-- arithmetic on `real` columns are PostgreSQL's, and so are arguments here.
pub mod Usage
use microservice_diagnosis.Prelude.{
  ℕ, ◌+◌, ◌<◌, String, ◌<>◌, Bool, true, false, not, ◌&&◌, ◌||◌, Option, none, some, List, filter,
  any, update_where, sort_by, ◌==◌, leb, ltb, if◌then◌else◌,
}
use microservice_diagnosis.Store.Rows.{Uuid, Risk}

-- What PostgreSQL does with patterns and with success rates.
pub record Postgres : Type 1 where
  pub Rate : Type 0
  -- `text ILIKE pattern`.
  pub ilike : String → String → Bool
  -- `a >= b`.
  pub at_least : Rate → Rate → Bool
  -- `(rate * uses + 1) / (uses + 1)` and `(rate * uses) / (uses + 1)`.
  pub after_success : Rate → ℕ → Rate
  pub after_failure : Rate → ℕ → Rate

module _ (pg : Postgres) where
  open pg use {Rate, ilike, at_least, after_success, after_failure}

  -- `fix_steps` is the JSON text.
  pub record FixKnowledge : Type 0 where
    pub id : Uuid
    pub root_cause_pattern : String
    pub fix_steps : String
    pub risk : Risk
    pub rollback_plan : String
    pub times_used : ℕ
    pub success_rate : Rate

  -- ORDER BY success_rate DESC, times_used DESC.
  abbrev pub ranks_before : FixKnowledge → FixKnowledge → Bool
  ranks_before a b =
      if at_least a.success_rate b.success_rate
      then (if at_least b.success_rate a.success_rate then leb b.times_used a.times_used else true)
      else false

  abbrev pub matches : String → FixKnowledge → Bool
  matches pattern e = ilike e.root_cause_pattern ("%" <> (pattern <> "%"))

  -- `SearchByRootCause`; `fails` is a query that fails, and none an error.
  unfoldable pub search_by_root_cause :
      Bool → String → List FixKnowledge → Option (List FixKnowledge)
  search_by_root_cause fails pattern rows =
      if fails then none else some (sort_by ranks_before (filter (matches pattern) rows))

  abbrev pub has_knowledge_id : Uuid → FixKnowledge → Bool
  has_knowledge_id id e = e.id == id

  abbrev pub counted : Bool → FixKnowledge → FixKnowledge
  counted success e = record e {
    times_used = e.times_used + 1;
    success_rate =
        if success
        then after_success e.success_rate e.times_used
        else after_failure e.success_rate e.times_used;
  }

  -- The largest INT: one use more is an error of PostgreSQL.
  abbrev pub max_int : ℕ
  max_int = 2147483647

  abbrev pub overflows : Uuid → FixKnowledge → Bool
  overflows id e = has_knowledge_id id e && leb max_int e.times_used

  -- `IncrementUsage`: whether it returns no error, and the table.
  unfoldable pub increment_usage : Bool → Uuid → Bool → List FixKnowledge → Bool × List FixKnowledge
  increment_usage fails id success rows =
      if fails || any (overflows id) rows
      then (false, rows)
      else (true, update_where (has_knowledge_id id) (counted success) rows)
