-- ===== src/Llm.antt =====
-- internal/llm: the client of the language model.
pub mod Client
