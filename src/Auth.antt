-- ===== src/Auth.antt =====
-- src/modules/auth/auth.service.ts
pub mod Keys
pub mod World
pub mod Users
pub mod Tokens
pub mod Otp
pub mod Login
pub mod Passwords
pub mod Register
pub mod OtpGuards
