-- ===== src/Bus.antt =====
-- internal/bus: the transport over Kafka.
pub mod Topic
pub mod Message
pub mod Config
pub mod Consumer
pub mod Subscribe
pub mod Channel
pub mod Replay
