-- ===== src/SignIn.antt =====
-- Who a request speaks for (apps/api/auth.go, apps/api/auth_external.go).
pub mod Settings
pub mod Resolve
pub mod Members
pub mod Identified
pub mod Tokens
