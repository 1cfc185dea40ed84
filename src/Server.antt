-- ===== src/Server.antt =====
-- internal/server: the event loop that drives a session, the approval gate, the execution of fix
-- actions, and the HTTP handlers that change a session.
pub mod Evidence
pub mod Dispatch
pub mod ApprovalGate
pub mod FixExecution
pub mod EventLoop
pub mod Handlers
pub mod Calls
pub mod StatusProto
pub mod Backlog
pub mod FanIn
pub mod Readers
pub mod Queries
