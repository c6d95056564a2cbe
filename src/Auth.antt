-- ===== src/Auth.antt =====
-- Signing in: src/modules/auth.
pub mod OtpAttempts
pub mod Otp
pub mod Register
pub mod Examples
