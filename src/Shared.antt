-- ===== src/Shared.antt =====
-- src/modules/shared: what the feature modules build on.
mod Tests
pub mod Redis
pub mod Table
pub mod Users
pub mod Otp
pub mod Pagination
pub mod Concurrency
pub mod Audit
pub mod Guards
pub mod Errors
pub mod Cache
pub mod Retry
pub mod Escape
pub mod Password
