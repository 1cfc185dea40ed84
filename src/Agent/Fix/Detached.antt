-- ===== src/Agent/Fix/Detached.antt =====
-- The fix agent as Run starts it: without a database and without an LLM.
use microservice_diagnosis.Prelude.{
  ℕ, ◌+◌, String, false, Option, none, some, List, [], ◌∷◌, ◌++◌, find?, ◌≡◌, refl, ◌∙◌, arith,
}
use microservice_diagnosis.Store.Rows.{Uuid, FixAction}
use microservice_diagnosis.Store.World.{World, Env, M, Result, ok, err, pure, continue, ◌>>=◌}
use microservice_diagnosis.Agent.Risk.{FixStep}
use microservice_diagnosis.Agent.Observation.{Observation}
use microservice_diagnosis.Agent.Fix.{
  FixAgent, persist, emit, detail_of, new_fix_action, propose_step, propose_steps, with_pattern,
  with_session, with_rca, handle, is_rca_result, choose_steps, search_knowledge_base,
}
use microservice_diagnosis.Agent.Start.{Agent, new_agent}

-- The action changes nothing in the world.
abbrev IsStill : {A : Type 0} → M A → Type 0
IsStill m = (w : World) → (m w).1 ≡ w

continue-IsStill :
    {A B : Type 0} (r : Result A) (f : A → M B) (w : World)
    → ((a : A) → IsStill (f a))
    → (continue r f w).1 ≡ w
continue-IsStill (ok a) f w h = h a w
continue-IsStill (err e) f w h = refl

bind-IsStill :
    {A B : Type 0} (m : M A) (f : A → M B)
    → IsStill m
    → ((a : A) → IsStill (f a))
    → IsStill (m >>= f)
bind-IsStill m f h k w = continue-IsStill (m w).0 f (m w).1 k ∙ h w

emit-IsStill :
    (env : Env) (a : FixAgent) (rca : Observation) (text : String) (s : FixStep) (fa : FixAction)
    (detail : Option String)
    → IsStill (emit env a rca text s fa detail)
emit-IsStill env a rca text s fa none w = refl
emit-IsStill env a rca text s fa (some detail) w = refl

module _ (env : Env) (a : FixAgent) (no_pool : a.pool ≡ false) where
  persist-IsStill : (fa : FixAction) → IsStill (persist env a.pool fa)
  persist-IsStill fa w = rw no_pool refl

  propose_step-IsStill :
      (rca : Observation) (text : String) (id : Uuid) (i : ℕ) (s : FixStep)
      → IsStill (propose_step env a rca text id i s)
  unfolding propose_step
  propose_step-IsStill rca text id i s =
      bind-IsStill (persist env a.pool (new_fix_action id i s))
        (λ made. emit env a rca text s made.0 (a.encode (detail_of s made)))
        (persist-IsStill (new_fix_action id i s))
        (λ made. emit-IsStill env a rca text s made.0 (a.encode (detail_of s made)))

  propose_steps-IsStill :
      (rca : Observation) (text : String) (id : Uuid) (i : ℕ) (steps : List FixStep)
      → IsStill (propose_steps env a rca text id i steps)
  unfolding propose_steps
  propose_steps-IsStill rca text id i [] w = refl
  propose_steps-IsStill rca text id i (s ∷ steps) w =
      bind-IsStill (propose_step env a rca text id i s)
        (λ first. do rest ← propose_steps env a rca text id (i + 1) steps; pure (first ++ rest))
        (propose_step-IsStill rca text id i s)
        (λ first.
          bind-IsStill (propose_steps env a rca text id (i + 1) steps)
            (λ rest. pure (first ++ rest)) (propose_steps-IsStill rca text id (i + 1) steps)
            (λ rest v. refl))
        w

  with_pattern-IsStill :
      (text : String) (rca : Observation) (id : Uuid) (pattern : Option String)
      → IsStill (with_pattern env a text rca id pattern)
  with_pattern-IsStill text rca id none w = refl
  with_pattern-IsStill text rca id (some pattern) w =
      propose_steps-IsStill rca text id 0
        (choose_steps a rca pattern (search_knowledge_base a pattern)) w

  with_session-IsStill :
      (text : String) (rca : Observation) (id : Option Uuid)
      → IsStill (with_session env a text rca id)
  with_session-IsStill text rca none w = refl
  with_session-IsStill text rca (some id) w =
      with_pattern-IsStill text rca id (a.parse_rca rca.detail_json) w

  with_rca-IsStill : (text : String) (rca : Option Observation) → IsStill (with_rca env a text rca)
  with_rca-IsStill text none w = refl
  with_rca-IsStill text (some rca) w = with_session-IsStill text rca (a.parse_uuid text) w

-- The agent that Run starts under any name has no database, and Handle of a fix agent with the database
-- of such an agent writes no fix action, and nothing else, whatever it is handed and whatever the codecs
-- and the LLM answer.
pub handle_detached :
    (env : Env) (a : FixAgent) (name text : String) (started : Agent) (inputs : List Observation)
    (w : World)
    → new_agent name ≡ some started
    → a.pool ≡ started.pool
    → (handle env a text inputs w).1 ≡ w
unfolding handle new_agent
handle_detached env a name text started inputs w h p =
    with_rca-IsStill env a (p ∙ ground arith) text (find? is_rca_result inputs) w
