-- ===== src/Executor.antt =====
-- internal/executor: the executor of fix actions.
pub mod K8s
