-- ===== src/Approvals.antt =====
-- Running runbooks and deciding on approval requests (apps/api/runbooks.go).
pub mod Request
pub mod Plan
pub mod Run
pub mod Decide
pub mod Kept
pub mod Granted
pub mod Planned
pub mod Outcome
pub mod Settled
