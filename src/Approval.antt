-- ===== src/Approval.antt =====
-- internal/approval: the clients that ask for human approval, over the tokens that they issue.
pub mod Tokens
pub mod NoopClient
pub mod WebhookClient
