-- ===== src/Workflow.antt =====
-- internal/workflow/engine.go: the session state machine.
pub mod Transitions
pub mod Engine
pub mod Sweep
pub mod Graph
pub mod Design
pub mod Outcomes
pub mod Lifecycle
pub mod Declared
pub mod Progress
pub mod History
