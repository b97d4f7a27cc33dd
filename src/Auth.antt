-- ===== src/Auth.antt =====
-- Sign-in, sessions and account links: backend/src/auth.
pub mod User
pub mod Throttle
pub mod Tokens
pub mod Refresh
pub mod Sessions
pub mod Password
pub mod SignIn
