-- ===== src/Notifications.antt =====
-- src/modules/platform/notifications: the inbox of each user and the broadcasts that fill it.
mod Tests
pub mod Types
pub mod Repository
pub mod Ports
pub mod Push
pub mod Inbox
pub mod Broadcast
pub mod Chunks
