-- ===== src/Notify.antt =====
-- internal/notify: the delivery of events to webhooks.
pub mod Webhook
pub mod Incident
