-- ===== src/Agent.antt =====
-- internal/agent and internal/observation: the contract of an observation, the fix agent and the loop
-- that runs an agent.
pub mod Observation
pub mod Risk
pub mod Rca
pub mod Fix
pub mod Start
pub mod Runner
pub mod Collector
