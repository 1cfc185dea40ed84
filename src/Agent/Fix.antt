-- ===== src/Agent/Fix.antt =====
-- internal/agent/fix.go: Handle. What the JSON codec,
-- the UUID parser, the knowledge base and the LLM answer is a parameter.
pub mod Gated
pub mod Detached
use microservice_diagnosis.Prelude.{
  ℤ, pos, negsuc, ℕ, ◌+◌, String, Bool, true, false, Option, none, some, List, [], ◌∷◌, ◌⊎◌, inl,
  inr, find?, str_eq, if◌then◌else◌, ◌++◌,
}
use microservice_diagnosis.Store.Rows.{
  Uuid, Risk, low, medium, is_high, no_approval, not_started, FixAction,
}
use microservice_diagnosis.Agent.Risk.{FixStep, assess_risk, default_fix_steps}
use microservice_diagnosis.Store.World.{
  World, Env, M, Result, ok, err, driver, pure, throw, try, ◌>>=◌, ◌>>◌, advance,
}
use microservice_diagnosis.Store.FixActionDao
use microservice_diagnosis.Agent.Observation.{
  EvidenceType, rca_result, fix_action, Observation, ValidationError, new,
}

-- What is serialized into the detail of an observation; `db_persist_error` says whether the row
-- failed to persist.
pub record FixActionDetail : Type 0 where
  pub step : FixStep
  pub risk : Risk
  pub rollback_plan : String
  pub requires_approval : Bool
  pub db_persist_error : Bool

-- A FixAgent with what it calls: the UUID and the JSON codecs, the knowledge base (`none` without a
-- pool; of each entry, its steps if they unmarshal), the LLM with its answer unmarshalled, and the
-- UUID and the time that observation.New draws.
pub record FixAgent : Type 0 where
  pub pool : Bool
  pub parse_uuid : String → Option Uuid
  pub parse_rca : String → Option String
  pub search : String → Option (List (Option (List FixStep)))
  pub ask_llm : Observation → Option (List FixStep)
  pub encode : FixActionDetail → Option String
  pub fresh : ℕ → String

abbrev unmarshalled : List (Option (List FixStep)) → List (List FixStep)
unmarshalled [] = []
unmarshalled (none ∷ entries) = unmarshalled entries
unmarshalled (some steps ∷ entries) = steps ∷ unmarshalled entries

-- The candidates; after an error there are none.
abbrev search_knowledge_base : FixAgent → String → List (List FixStep)
search_knowledge_base a pattern = if a.pool then found (a.search pattern) else []
  where
    found : Option (List (Option (List FixStep))) → List (List FixStep)
    found none = []
    found (some entries) = unmarshalled entries

abbrev pub or_default : String → Option (List FixStep) → List FixStep
or_default pattern none = default_fix_steps pattern
or_default pattern (some steps) = steps

-- The steps of the first candidate, of the LLM, or the fallback.
abbrev choose_steps : FixAgent → Observation → String → List (List FixStep) → List FixStep
choose_steps a rca pattern [] = or_default pattern (a.ask_llm rca)
choose_steps a rca pattern (steps ∷ candidates) = steps

abbrev or_step : String → String → String
or_step rollback of_step = if str_eq rollback "" then of_step else rollback

-- The row that is built for the step at the index `i`.
unfoldable pub new_fix_action : Uuid → ℕ → FixStep → FixAction
new_fix_action session_id i s = record {
  id = 0;
  session_id = session_id;
  seq = i + 1;
  action_type = s.action_type;
  target = s.target;
  risk = (assess_risk s).0;
  rollback_plan = or_step (assess_risk s).1 s.rollback_plan;
  requires_approval = is_high (assess_risk s).0;
  approval_status = no_approval;
  execution_status = not_started;
  ticket_id = none;
  created_at = 0;
  updated_at = 0;
}

abbrev is_error : Result (Unit {0}) → Bool
is_error (ok u) = false
is_error (err x) = true

-- With a pool, Create fills the row in and inserts it; the answer is the row and whether that failed.
abbrev persist : Env → Bool → FixAction → M (FixAction × Bool)
persist env false fa w = (ok (fa, false), w)
persist env true fa w =
    let filled = FixActionDao.fill env fa w in
    let made = FixActionDao.create env filled w in (ok (filled, is_error made.0), made.1)

abbrev detail_of : FixStep → FixAction × Bool → FixActionDetail
detail_of s (fa, failed) = record {
  step = s;
  risk = fa.risk;
  rollback_plan = fa.rollback_plan;
  requires_approval = fa.requires_approval;
  db_persist_error = failed;
}

abbrev draft : Observation → String → FixStep → FixAction → String → Observation
draft rca session_id s fa detail = record {
  id = "";
  session_id = session_id;
  source = "agent-fix";
  type = fix_action;
  sub_type = s.action_type;
  confidence = rca.confidence;
  severity = rca.severity;
  target_service = rca.target_service;
  timestamp = none;
  schema_version = pos 0;
  fix_action_id = some fa.id;
  correlations = [];
  detail_json = detail;
  labels = rca.labels;
}

abbrev accepted : List ValidationError ⊎ Observation → List Observation
accepted (inl errs) = []
accepted (inr o) = o ∷ []

-- The observation of a step, if its detail is encoded and New accepts it.
abbrev emit :
    Env
    → FixAgent
    → Observation
    → String
    → FixStep
    → FixAction
    → Option String
    → M (List Observation)
emit env a rca session_id s fa none w = (ok [], w)
emit env a rca session_id s fa (some detail) w = (
  ok (accepted (new (a.fresh w.tick) (env.clock w.tick) (some (draft rca session_id s fa detail)))),
  w,
)

-- One round of the loop.
unfoldable pub propose_step :
    Env → FixAgent → Observation → String → Uuid → ℕ → FixStep → M (List Observation)
propose_step env a rca session_id id i s = do
  made ← persist env a.pool (new_fix_action id i s)
  emit env a rca session_id s made.0 (a.encode (detail_of s made))

unfoldable pub propose_steps :
    Env → FixAgent → Observation → String → Uuid → ℕ → List FixStep → M (List Observation)
propose_steps env a rca session_id id i [] = pure []
propose_steps env a rca session_id id i (s ∷ steps) = do
  first ← propose_step env a rca session_id id i s
  rest ← propose_steps env a rca session_id id (i + 1) steps
  pure (first ++ rest)

abbrev is_rca_result : Observation → Bool
is_rca_result o = is_rca o.type
  where
    is_rca : EvidenceType → Bool
    is_rca rca_result = true
    is_rca _ = false

abbrev with_pattern :
    Env → FixAgent → String → Observation → Uuid → Option String → M (List Observation)
with_pattern env a session_id rca id none = throw driver
with_pattern env a session_id rca id (some pattern) =
    propose_steps env a rca session_id id 0
      (choose_steps a rca pattern (search_knowledge_base a pattern))

abbrev with_session : Env → FixAgent → String → Observation → Option Uuid → M (List Observation)
with_session env a session_id rca none = throw driver
with_session env a session_id rca (some id) =
    with_pattern env a session_id rca id (a.parse_rca rca.detail_json)

abbrev with_rca : Env → FixAgent → String → Option Observation → M (List Observation)
with_rca env a session_id none = pure []
with_rca env a session_id (some rca) = with_session env a session_id rca (a.parse_uuid session_id)

-- `Handle`.
unfoldable pub handle : Env → FixAgent → String → List Observation → M (List Observation)
handle env a session_id inputs = with_rca env a session_id (find? is_rca_result inputs)
