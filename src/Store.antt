-- ===== src/Store.antt =====
-- internal/store: the rows of the database, the statements that read and write them, and the world
-- in which a sequence of statements runs.
pub mod Rows
pub mod World
pub mod Frames
pub mod Keeps
pub mod Preserves
pub mod SessionDao
pub mod SessionList
pub mod FixActionDao
pub mod KnowledgeBaseDao
pub mod ApprovalDao
pub mod WebhookDao
pub mod SessionEventDao
