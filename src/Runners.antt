-- ===== src/Runners.antt =====
-- Runner identity: the credential checks of apps/api/auth.go and the lifecycle of apps/api/runners.go.
-- Runners, their scopes and their credentials are the tables that these handlers change.
pub mod Auth
pub mod Credentials
pub mod Manage
pub mod Register
pub mod Rotation
pub mod Reply
pub mod Denial
