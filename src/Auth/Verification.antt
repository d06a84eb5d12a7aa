-- ===== src/Auth/Verification.antt =====
-- What the four verification methods of src/modules/platform/auth/auth.service.ts guarantee:
-- `verifyEmail`, `verifyEmailLogin`, `verifyPhoneRegister` and `verifyPhoneLogin`.
pub mod Steps
pub mod Shape
pub mod Endpoints
pub mod Soundness
pub mod Kinds
pub mod Guesses
