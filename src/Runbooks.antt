-- ===== src/Runbooks.antt =====
-- packages/runbooks/runbook.go: runbooks, their parameters, and the commands they render.
pub mod Types
pub mod Values
pub mod Validate
pub mod Params
pub mod Render
pub mod Shell
pub mod Quoting
pub mod Resolved
pub mod Accepted
