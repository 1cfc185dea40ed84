-- ===== src/Agent/Start/Topology.antt =====
-- The orchestrator and the agents, joined by their topics.
use microservice_diagnosis.Prelude.{
  ℕ, ◌+◌, map, String, Bool, true, some, List, [], ◌∷◌, ◌++◌, append_nil, append_assoc, any, str_eq,
  All, ◌≡◌, refl, sym, ◌∙◌, Bool-cases, inl, inr, if◌then◌else◌,
}
use microservice_diagnosis.Store.Rows.{Uuid}
use microservice_diagnosis.Store.World.{World, Env, CommandMessage, advance}
use microservice_diagnosis.Agent.Start.{Agent, new_agent}
use microservice_diagnosis.Server.Dispatch.{
  publish, collect_command, collectors, dispatch_each, dispatch_collect, analyze_command,
  dispatch_analyze,
}
use microservice_diagnosis.Server.FanIn.{topics}

-- The command goes to the topic that the agent of its kind consumes, which takes it for its own, and
-- whose output the event loop reads.
abbrev pub IsRouted : CommandMessage → Type 0
IsRouted m =
    (a : Agent) × (new_agent m.agent_kind ≡ some a)
    × (a.input_topic ≡ m.topic)
    × (a.name ≡ m.agent_kind)
    × (any (λ t. str_eq t a.output_topic) topics ≡ true)

-- The messages whose call of Publish does not fail, when they are published one after the other.
abbrev pub surviving : (ℕ → Bool) → ℕ → List CommandMessage → List CommandMessage
surviving fault tick [] = []
surviving fault tick (m ∷ ms) =
    let rest = surviving fault (tick + 1) ms in if fault tick then rest else m ∷ rest

-- The commands that start the collection for a session.
abbrev pub collect_commands : Uuid → String → List CommandMessage
collect_commands id service = map (collect_command id service) collectors

dispatch_each-published :
    (env : Env) (id : Uuid) (service : String) (agents : List (String × String)) (w : World)
    → (dispatch_each env id service agents w).1.published
      ≡ w.published ++ surviving env.fault w.tick (map (collect_command id service) agents)
unfolding dispatch_each publish
dispatch_each-published env id service [] w = sym (append_nil w.published)
dispatch_each-published env id service (a ∷ agents) w = elim (Bool-cases (env.fault w.tick)) [
  | inl e ↦ rw e (dispatch_each-published env id service agents (advance w))
  | inr e ↦ rw e (
      dispatch_each-published env id service agents
        (advance (record w { published = w.published ++ collect_command id service a ∷ [] }))
      ∙ append_assoc w.published (collect_command id service a ∷ []) _)
]

publish-published :
    (env : Env) (m : CommandMessage) (w : World)
    → (publish env m w).1.published ≡ w.published ++ surviving env.fault w.tick (m ∷ [])
unfolding publish
publish-published env m w = elim (Bool-cases (env.fault w.tick)) [
  | inl e ↦ rw e (sym (append_nil w.published))
  | inr e ↦ rw e refl
]

collect_commands-IsRouted :
    (id : Uuid) (service : String) → All IsRouted (collect_commands id service)
unfolding new_agent
collect_commands-IsRouted id service =
    ((_, refl, refl, refl, refl), ((_, refl, refl, refl, refl), ((_, refl, refl, refl, refl), tt)))

analyze_command-IsRouted : (id : Uuid) (service : String) → IsRouted (analyze_command id service)
unfolding new_agent
analyze_command-IsRouted id service = (_, refl, refl, refl, refl)

-- With a producer, DispatchCollect publishes the collect commands of the session, and DispatchAnalyze
-- its analyze command, but for those whose call of Publish fails. Each of these commands goes to the
-- topic that the agent named in it consumes from its start on, and what that agent puts out goes to a
-- topic that the event loop reads.
pub dispatch-IsRouted :
    (env : Env) (id : Uuid) (service : String) (w : World)
    → ((dispatch_collect env true id service w).1.published
        ≡ w.published ++ surviving env.fault w.tick (collect_commands id service))
      × All IsRouted (collect_commands id service)
      × ((dispatch_analyze env true id service w).1.published
          ≡ w.published ++ surviving env.fault w.tick (analyze_command id service ∷ []))
      × IsRouted (analyze_command id service)
unfolding dispatch_collect dispatch_analyze
dispatch-IsRouted env id service w = (
  dispatch_each-published env id service collectors w,
  collect_commands-IsRouted id service,
  publish-published env (analyze_command id service) w,
  analyze_command-IsRouted id service,
)
