-- ===== src/Auth.antt =====
-- src/modules/platform/auth.
mod Tests
pub mod Normalize
pub mod Sessions
pub mod Services
pub mod Limits
pub mod Tokens
pub mod Accounts
pub mod EmailOtp
pub mod PhoneOtp
pub mod Echo
pub mod Verification
