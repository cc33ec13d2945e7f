-- ===== src/Servers.antt =====
-- The inventory of servers (apps/api/servers.go).
pub mod Identity
pub mod Manage
pub mod Check
pub mod Kept
