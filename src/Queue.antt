-- ===== src/Queue.antt =====
-- The job queue: apps/api/queue.go, apps/api/jobs.go and the cancellation of apps/api/executions.go.
-- The clock of the server process and that of the database are one, in seconds.
pub mod Backoff
pub mod Reconcile
pub mod Claim
pub mod Renew
pub mod Cancel
pub mod Submit
pub mod Tidy
pub mod Held
pub mod Recovered
