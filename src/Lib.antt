-- ===== src/Lib.antt =====
-- vpstools: the control plane that hands jobs to runners, its audit log, and the packages that
-- decide who may run what.
--
-- The parts and how they meet. A handler of apps/api reads and changes the tables of the metadata
-- database (apps/api/migrate.go), some of them inside a transaction. A runner signs in with a
-- credential (apps/api/auth.go, apps/api/runners.go), claims a target of an execution under a
-- lease (apps/api/jobs.go), renews the lease and submits a result. A sweep takes back targets
-- whose lease has expired (apps/api/queue.go), at most once an interval for each organisation
-- (apps/api/reconcile_throttle.go) or on the timer of apps/api/automation.go. A runbook of the
-- catalogue is run with parameters that are quoted for the shell (packages/runbooks); where its
-- risk asks for it the run waits for an approval by another, senior user (apps/api/runbooks.go).
-- Most changes are written to the audit log, a hash chain for each organisation
-- (apps/api/helpers.go). A dispatched job is signed (packages/jobsign). The policy
-- (packages/authz) says who may execute; schedules (packages/automation) say when; the request
-- limiter (apps/api/ratelimit.go) guards the API.
--
-- - Base: shared names, Boolean tests, lists, tables (find, select, update, count, exists stand
--   for the SQL statements), maps and integers.
-- - Store: the rows of apps/api/migrate.go (Store.Rows, with the columns that the modelled
--   handlers read or write), the status words, the actions that handlers are built of
--   (Store.Action) and rules for what an action keeps (Store.Keeps), what holds when it succeeds
--   (Store.Ends, and step by step Store.Paths) and when it fails (Store.Fails). The rows of
--   runbooks and approvals are in Store.Catalogue, those of schedules in Store.Scheduling, those
--   of users and tokens in Store.Users.
-- - Queue: retryBackoffSeconds (Backoff), reconcileExpiredLeases and the sweep over all
--   organisations (Reconcile), handleClaimJob (Claim), handleRenewLease (Renew),
--   handleSubmitResult with insertResultReceipt and persistExecutionArtifacts (Submit,
--   Submit.Handle), handleCancelExecution (Cancel), the invariant of the targets (Tidy), mutual
--   exclusion (Held) and what a sweep achieves (Recovered).
-- - Executions: handleCreateExecution and replayIdempotentExecution (Create, Create.Handle),
--   resolveTargets, targetEnvironment and snapshotTargets (Targets), and what a created execution
--   needs (Create.Allowed) and what a repeated key gets (Create.Repeat, Create.Replay), all of
--   apps/api/executions.go.
-- - Runners: authenticateRunnerCredential and authenticateBoundRunner (Auth), writeDenial
--   (Denial), and the handlers of apps/api/runners.go (Credentials, Manage, Register), with what
--   rotation and revocation leave valid (Rotation).
-- - Audit: the writes to the audit log and its verification (apps/api/helpers.go), with the
--   sorting of the events (Sort), the chain (Chain), what a write does (Write) and what two
--   writes at once do (Fork).
-- - Jobsign: NewSigner, Sign, Verify and canonical of packages/jobsign/jobsign.go.
-- - Authz: the actor and its roles (packages/authz/authz.go), the policy
--   (packages/authz/policy.go) and ClassifyRisk (Risk).
-- - Runbooks: packages/runbooks/runbook.go: the types (Types), the checks of names and values
--   (Values), Validate (Validate), ValidateParams (Params), RenderCommand and shellQuote
--   (Render), a machine that reads a command as a POSIX shell does (Shell), with what it makes of
--   a rendered command (Quoting) and what accepted parameters are (Resolved, Accepted).
-- - Catalogue: handleCreateRunbook, handleUpdateRunbook, handlePublishRunbook and
--   handleArchiveRunbook of apps/api/runbooks.go (Drafts, Handle), and the versions across them
--   (Immutable).
-- - Approvals: handleRunRunbook (Request, Plan, Run), handleApprove,
--   createExecutionFromApprovalTx and handleDeny (Decide) of apps/api/runbooks.go, with what a
--   run leads to (Planned, Outcome), what an approval needs and does (Granted), and the invariant
--   of requests and executions (Settled).
-- - Automation: apps/api/automation.go: automationPaused, the handlers of the pause and of
--   schedules (Control), executeScheduledRun (Run) and runDueSchedulesOnce (Cycle), with what a
--   cycle keeps (Kept), what a scheduled run needs and does (Queued) and what a pause stops
--   (Paused).
-- - Dialect: Parse, Rebind and CurrentTime of packages/db/dialect/dialect.go (Rebind), the
--   lexical rules as a machine (Lexer), and their agreement (Copies, Rebound).
-- - Servers: apps/api/servers.go: validateSSHIdentity and sqlNullOptionalString (Identity),
--   handleAddServer, handleUpdateServer and handleArchiveServer (Manage), handleCheckServer
--   (Check), and what an update keeps of the SSH identities (Kept).
-- - SignIn: productionModeEnabled, devAuthEnabled, bearerToken and the like (Settings), withAuth,
--   resolveAPITokenActor, resolveExternalActor and ResolveDevUser (Resolve), and the handlers of
--   API tokens (Tokens), of apps/api/auth.go, apps/api/auth_external.go and
--   packages/authz/authz.go, with the users that they find (Members) and who a request speaks for
--   (Identified).
-- - Schedule, RateLimit, Throttle: packages/automation/schedule.go, apps/api/ratelimit.go,
--   apps/api/reconcile_throttle.go.
-- - Examples: tests, and each theorem with hypotheses applied at a concrete input.
--
-- How state is modelled. A table is the list of its rows. An action takes the tables to a result
-- and the tables it leaves; an error leaves what was written before it, unless a transaction
-- rolls it back. A statement that the database refuses is a Boolean of the environment
-- (env.fails), by the message or event that the code attaches to the statement, so that a theorem
-- holds whichever statements fail. The environment has the clock in seconds, the identifiers that
-- are drawn, and SHA-256 as functions. The clock of the process and that of the database are one.
-- Each handler is one step; where two handlers interleave between statements that no transaction
-- joins, the model says so (Audit.Fork).
--
-- Bounds and fuel. The loop of NextAfter runs on fuel; two rounds more than the clock counts are
-- enough for intervals that do not overflow, and where the 64-bit duration of an interval wraps
-- round to nothing no fuel is enough. The loop of Rebind runs on as much fuel as the query has
-- characters, and each round passes at least one. NextAfter runs in a cycle of the scheduler on
-- as much fuel as the clock counts and two rounds more. The other loops are structural. Times are
-- natural numbers. Exit codes, ports and timeouts are integers without a bound: the code only
-- stores and compares them.
--
-- Parameters. Text functions of the Go library on which no theorem depends (strings.TrimSpace,
-- strings.ToLower, strings.EqualFold, net.SplitHostPort), the YAML reader and the JSON of a list
-- of roles, HMAC, base64 and JSON of the signature scheme, packages/redact, the artifact store of
-- packages/artifacts and the size of a text are arguments.
--
-- Not modelled: HTTP parsing and JSON decoding (a body that does not decode is none), the
-- PostgreSQL row security that bindTenantConnection sets up, the lists and views for display,
-- backfillAuditHashChain, the notifications of packages/dispatch, and the programs round the API
-- (command line, runner process, web, backup).
pub mod Base
pub mod Runbooks
pub mod Schedule
pub mod RateLimit
pub mod Throttle
pub mod Authz
pub mod Catalogue
pub mod Jobsign
pub mod Store
pub mod Approvals
pub mod Audit
pub mod Runners
pub mod Queue
pub mod Executions
pub mod Automation
pub mod Dialect
pub mod Servers
pub mod SignIn
pub mod Examples
