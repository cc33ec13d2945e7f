-- ===== src/Examples.antt =====
-- Tests, and each theorem that has hypotheses applied at a concrete input.
mod World
mod Timers
mod Queue
mod Requests
mod Access
mod Log
mod Dialect
mod Runbooks
mod Approvals
mod Automation
mod Servers
mod SignIn
