-- ===== src/Workflow/Design.antt =====
-- PLAN.md section 5.2: the table of the design, row by row, and how the relation of Workflow.Graph
-- differs from it.
use microservice_diagnosis.Prelude.{◌⊎◌, inl, inr, ◌↔◌}
use microservice_diagnosis.Store.Rows.{
  Status, created, collecting, analyzing, rca_done, fix_proposed, awaiting_approval, fix_suggested,
  fix_executing, verifying, resolved, rolled_back, rejected, ignored, failed,
}
use microservice_diagnosis.Workflow.Graph
use microservice_diagnosis.Workflow.Graph.{
  IsActive, in_created, in_fix_proposed, in_fix_suggested, ◌⟶◌, active,
}

pub data Designed : Status → Status → Type 0 where
  collect : Designed created collecting
  analyze : Designed collecting analyzing
  diagnose : Designed analyzing rca_done
  propose : Designed rca_done fix_proposed
  ask : Designed fix_proposed awaiting_approval
  suggest : Designed fix_proposed fix_suggested
  approve : Designed awaiting_approval fix_executing
  refuse : Designed awaiting_approval rejected
  verify : Designed fix_executing verifying
  resolve : Designed verifying resolved
  roll_back : Designed verifying rolled_back
  -- From any status.
  ignore : {s : Status} → Designed s ignored
  fail : {s : Status} → Designed s failed

-- The edges that the table of the engine has and the design does not. The design calls FIX_SUGGESTED
-- terminal.
pub data Added : Status → Status → Type 0 where
  approve_directly : Added fix_proposed fix_executing
  execute : Added fix_suggested fix_executing

pub ruleset designed = (
  Designed.collect, Designed.analyze, Designed.diagnose, Designed.propose, Designed.ask,
  Designed.suggest, Designed.approve, Designed.refuse, Designed.verify, Designed.resolve,
  Designed.roll_back,
)

split : {s t : Status} → s ⟶ t → IsActive s × (Designed s t ⊎ Added s t)
split (Graph.collect) = (search active, inl Designed.collect)
split (Graph.analyze) = (search active, inl Designed.analyze)
split (Graph.diagnose) = (search active, inl Designed.diagnose)
split (Graph.propose) = (search active, inl Designed.propose)
split (Graph.ask) = (search active, inl Designed.ask)
split (Graph.suggest) = (search active, inl Designed.suggest)
split (Graph.approve_directly) = (search active, inr Added.approve_directly)
split (Graph.approve) = (search active, inl Designed.approve)
split (Graph.refuse) = (search active, inl Designed.refuse)
split (Graph.execute) = (search active, inr Added.execute)
split (Graph.verify) = (search active, inl Designed.verify)
split (Graph.resolve) = (search active, inl Designed.resolve)
split (Graph.roll_back) = (search active, inl Designed.roll_back)
split (Graph.ignore a) = (a, inl Designed.ignore)
split (Graph.fail a) = (a, inl Designed.fail)

drawn : {s t : Status} → IsActive s → Designed s t → s ⟶ t
drawn a Designed.collect = Graph.collect
drawn a Designed.analyze = Graph.analyze
drawn a Designed.diagnose = Graph.diagnose
drawn a Designed.propose = Graph.propose
drawn a Designed.ask = Graph.ask
drawn a Designed.suggest = Graph.suggest
drawn a Designed.approve = Graph.approve
drawn a Designed.refuse = Graph.refuse
drawn a Designed.verify = Graph.verify
drawn a Designed.resolve = Graph.resolve
drawn a Designed.roll_back = Graph.roll_back
drawn a Designed.ignore = Graph.ignore a
drawn a Designed.fail = Graph.fail a

added : {s t : Status} → Added s t → s ⟶ t
added Added.approve_directly = Graph.approve_directly
added Added.execute = Graph.execute

-- The edges of Workflow.Graph are those of the design that leave an active status, and the two that are
-- added.
pub ⟶_iff : {s t : Status} → (s ⟶ t) ↔ (IsActive s × (Designed s t ⊎ Added s t))
⟶_iff = (split, λ h. elim h.1 [ inl d ↦ drawn h.0 d | inr a ↦ added a ])
