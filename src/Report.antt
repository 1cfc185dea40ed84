-- ===== src/Report.antt =====
-- internal/report: what a report of a session shows, and the handlers that hand it out.
pub mod Data
pub mod Markdown
pub mod Pandoc
pub mod Engine
