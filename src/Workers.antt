-- ===== src/Workers.antt =====
-- The programs that work beside the services: the notification worker (services/notification-worker) and
-- the replay of dead letters (cmd/dlq-replay).
pub mod Notification
pub mod Replay
pub mod Tests
