-- ===== src/Platform.antt =====
-- The shared packages under pkg/platform.
pub mod Text
pub mod Bytes
pub mod Envconfig
pub mod Events
pub mod Outbox
pub mod Http
pub mod Id
pub mod Kafka
pub mod Tests
