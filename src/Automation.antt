-- ===== src/Automation.antt =====
-- The scheduler of apps/api/automation.go.
pub mod Control
pub mod Run
pub mod Cycle
pub mod Kept
pub mod Paused
pub mod Queued
