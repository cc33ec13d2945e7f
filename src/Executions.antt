-- ===== src/Executions.antt =====
-- The creation of executions (apps/api/executions.go).
pub mod Targets
pub mod Create
