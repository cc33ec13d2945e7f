-- ===== src/Catalogue.antt =====
-- The catalogue of runbooks: creating, updating, publishing and archiving them (apps/api/runbooks.go).
pub mod Drafts
pub mod Handle
pub mod Immutable
