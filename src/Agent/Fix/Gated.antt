-- ===== src/Agent/Fix/Gated.antt =====
-- How the plan of the fix agent meets the approval gate and the executor.
use microservice_diagnosis.Prelude.{
  ℕ, ◌+◌, String, Bool, true, false, not, ◌||◌, Option, none, some, List, [], ◌∷◌, ◌++◌, ◌≡◌, refl,
  sym, ◌∙◌, ap, append_nil, append_assoc, arith, any, find?, map, filter, ◌⊎◌, All, All-append,
  str_eq, Bool-cases, inl, inr,
}
use microservice_diagnosis.Store.Rows.{Uuid, is_high, no_approval, not_started, FixAction}
use microservice_diagnosis.Store.World.{World, Env, M, Result, ok, err, insert, continue, ◌>>=◌}
use microservice_diagnosis.Store.FixActionDao
use microservice_diagnosis.Server.ApprovalGate.{needs_approval}
use microservice_diagnosis.Server.FixExecution.{is_executable}
use microservice_diagnosis.Agent.Observation.{Observation}
use microservice_diagnosis.Agent.Risk.{FixStep, Rule, rules, risk_of_rule, assess_risk}
use microservice_diagnosis.Agent.Fix.{
  FixAgent, with_pattern, with_rca, new_fix_action, persist, emit, propose_step, propose_steps,
  handle, is_rca_result,
}

-- The action types that run without an approval.
abbrev pub unattended : List String
unattended =
    "restart_pod" ∷ "scale_up" ∷ "scale_down" ∷ "config_change" ∷ "circuit_break" ∷ "rate_limit"
    ∷ "gc_tune" ∷ "connection_pool_tune" ∷ []

abbrev attended_alone : String → List Rule → Bool
attended_alone name rs =
    any (λ t. str_eq t name) (map (λ r. r.action_type) (filter (λ r. not (is_high r.risk)) rs))

closed_rules :
    (name : String) (rs : List Rule)
    → is_high (risk_of_rule (find? (λ r. str_eq r.action_type name) rs)).0 ≡ false
    → attended_alone name rs ≡ true
closed_rules name [] h = ground arith
closed_rules name (r ∷ rs) h = elim (Bool-cases (str_eq r.action_type name)) [
  | inl e ↦ let risk : is_high r.risk ≡ false = ground arith in rw (risk, e) refl
  | inr e ↦ elim (Bool-cases (is_high r.risk)) [
    | inl k ↦ rw k (closed_rules name rs (ground arith))
    | inr k ↦ rw (k, e) (closed_rules name rs (ground arith))
  ]
]

-- The rule table fails closed: a step whose risk is not HIGH is of one of the eight action types that
-- run without an approval, whatever the knowledge base or the LLM has written into it.
pub assess_risk_closed :
    (s : FixStep)
    → is_high (assess_risk s).0 ≡ false
    → any (λ t. str_eq t s.action_type) unattended ≡ true
unfolding assess_risk
assess_risk_closed s h = closed_rules s.action_type rules h

-- A new action of a session as the other components see it.
pub record IsProposed (id : Uuid) (fa : FixAction) : Type 0 where
  pub of_session : fa.session_id ≡ id
  pub runs_alone : is_executable fa ≡ not (is_high fa.risk)
  pub waits : needs_approval fa ≡ is_high fa.risk

runs_alone_lem :
    (fa : FixAction)
    → fa.requires_approval ≡ is_high fa.risk
    → fa.approval_status ≡ no_approval
    → fa.execution_status ≡ not_started
    → is_executable fa ≡ not (is_high fa.risk)
runs_alone_lem fa required unapproved idle = elim (Bool-cases (is_high fa.risk)) [
  | inl e ↦ rw (required, unapproved, idle, e) refl
  | inr e ↦ rw (required, unapproved, idle, e) refl
]

waits_lem :
    (fa : FixAction) → fa.approval_status ≡ no_approval → needs_approval fa ≡ is_high fa.risk
waits_lem fa unapproved = elim (Bool-cases (is_high fa.risk)) [
  | inl e ↦ rw (unapproved, e) refl
  | inr e ↦ rw (unapproved, e) refl
]

new_fix_action-IsProposed :
    (env : Env) (id : Uuid) (i : ℕ) (s : FixStep) (w : World)
    → IsProposed id (FixActionDao.fill env (new_fix_action id i s) w)
unfolding FixActionDao.fill new_fix_action
new_fix_action-IsProposed env id i s w = record {
  of_session = refl;
  runs_alone = runs_alone_lem (FixActionDao.fill env (new_fix_action id i s) w) refl refl refl;
  waits = waits_lem (FixActionDao.fill env (new_fix_action id i s) w) refl;
}

-- The rows that an action adds behind the others.
pub record Adds {A : Type 0} (id : Uuid) (m : M A) : Type 0 where
  pub at :
      (w : World)
      → (made : List FixAction) × ((m w).1.fixes ≡ w.fixes ++ made) × All (IsProposed id) made

module _ {A : Type 0} (id : Uuid) where
  Adds-none : (m : M A) → ((w : World) → (m w).1.fixes ≡ w.fixes) → Adds id m
  Adds-none m same = record { at = λ w. ([], same w ∙ sym (append_nil w.fixes), tt) }

module _ {A B : Type 0} (id : Uuid) where
  Adds-continue :
      (r : Result A) (f : A → M B) (v w : World) (made : List FixAction)
      → w.fixes ≡ v.fixes ++ made
      → All (IsProposed id) made
      → ((a : A) → Adds id (f a))
      → (all : List FixAction) × ((continue r f w).1.fixes ≡ v.fixes ++ all)
        × All (IsProposed id) all
  Adds-continue (err x) f v w made h proposed rest = (made, h, proposed)
  Adds-continue (ok a) f v w made h proposed rest =
      let (more, added, also) = (rest a).at w in
      (
        made ++ more,
        added ∙ ap (λ l. l ++ more) h ∙ append_assoc v.fixes made more,
        All-append (IsProposed id) made more proposed also,
      )

  Adds-bind : (m : M A) (f : A → M B) → Adds id m → ((a : A) → Adds id (f a)) → Adds id (m >>= f)
  Adds-bind m f h k = record {
    at = λ w.
        let (made, added, proposed) = h.at w in
        Adds-continue (m w).0 f w (m w).1 made added proposed k;
  }

insert_cases :
    (env : Env) (fa : FixAction) (w : World)
    → ((FixActionDao.create env fa w).1.fixes ≡ w.fixes)
      ⊎ ((FixActionDao.create env fa w).1.fixes ≡ w.fixes ++ fa ∷ [])
unfolding FixActionDao.create insert
insert_cases env fa w =
    elim (Bool-cases (env.fault w.tick || not (FixActionDao.fix_allowed fa w))) [
      | inl e ↦ inl (rw e refl)
      | inr e ↦ inr (rw e refl)
    ]

persist-Adds :
    (env : Env) (pool : Bool) (id : Uuid) (i : ℕ) (s : FixStep)
    → Adds id (persist env pool (new_fix_action id i s))
persist-Adds env false id i s = Adds-none id _ λ w. refl
persist-Adds env true id i s = record {
  at = λ w. elim (insert_cases env (FixActionDao.fill env (new_fix_action id i s) w) w) [
    | inl same ↦ ([], same ∙ sym (append_nil w.fixes), tt)
    | inr added ↦ (
      FixActionDao.fill env (new_fix_action id i s) w ∷ [],
      added,
      (new_fix_action-IsProposed env id i s w, tt),
    )
  ];
}

emit-Adds :
    (env : Env) (a : FixAgent) (rca : Observation) (text : String) (id : Uuid) (s : FixStep)
    (fa : FixAction) (detail : Option String)
    → Adds id (emit env a rca text s fa detail)
emit-Adds env a rca text id s fa none = Adds-none id _ λ w. refl
emit-Adds env a rca text id s fa (some detail) = Adds-none id _ λ w. refl

propose_step-Adds :
    (env : Env) (a : FixAgent) (rca : Observation) (text : String) (id : Uuid) (i : ℕ) (s : FixStep)
    → Adds id (propose_step env a rca text id i s)
unfolding propose_step
propose_step-Adds env a rca text id i s =
    Adds-bind id _ _ (persist-Adds env a.pool id i s) λ made. emit-Adds env a rca text id s made.0 _

propose_steps-Adds :
    (env : Env) (a : FixAgent) (rca : Observation) (text : String) (id : Uuid) (i : ℕ)
    (steps : List FixStep)
    → Adds id (propose_steps env a rca text id i steps)
unfolding propose_steps
propose_steps-Adds env a rca text id i [] = Adds-none id _ λ w. refl
propose_steps-Adds env a rca text id i (s ∷ steps) =
    Adds-bind id _ _ (propose_step-Adds env a rca text id i s) λ first.
      Adds-bind id _ _ (propose_steps-Adds env a rca text id (i + 1) steps)
        λ rest. Adds-none id _ λ w. refl

with_pattern-Adds :
    (env : Env) (a : FixAgent) (rca : Observation) (text : String) (id : Uuid)
    (pattern : Option String)
    → Adds id (with_pattern env a text rca id pattern)
with_pattern-Adds env a rca text id none = Adds-none id _ λ w. refl
with_pattern-Adds env a rca text id (some pattern) = propose_steps-Adds env a rca text id 0 _

with_rca-Adds :
    (env : Env) (a : FixAgent) (text : String) (id : Uuid) (rca : Option Observation)
    → a.parse_uuid text ≡ some id
    → Adds id (with_rca env a text rca)
with_rca-Adds env a text id none parsed = Adds-none id _ λ w. refl
with_rca-Adds env a text id (some rca) parsed = rw parsed (with_pattern-Adds env a rca text id _)

-- When the session id parses, Handle only adds rows behind those of the table, each one of that
-- session, whatever the knowledge base and the LLM answer. The executor's loop would run such a row
-- as it stands exactly when its risk is not HIGH, and the approval gate asks for a decision on it
-- exactly when its risk is HIGH.
pub handle-fixes :
    (env : Env) (a : FixAgent) (text : String) (id : Uuid) (inputs : List Observation) (w : World)
    → a.parse_uuid text ≡ some id
    → (made : List FixAction) × ((handle env a text inputs w).1.fixes ≡ w.fixes ++ made)
      × All (IsProposed id) made
unfolding handle
handle-fixes env a text id inputs w parsed =
    (with_rca-Adds env a text id (find? is_rca_result inputs) parsed).at w
