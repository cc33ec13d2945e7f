-- ===== src/Queue/Reconcile.antt =====
-- reconcileExpiredLeases, finalizeReconciledExecutions (apps/api/queue.go) and
-- reconcileAllOrganisationLeases (apps/api/automation.go).
use vpstools.Base.{
  ℕ, ◌+◌, String, Bool, not, ◌&&◌, none, some, List, [], ◌∷◌, ◌==◌, leb, passed, if◌then◌else◌,
}
use vpstools.Base.Int.{pos}
use vpstools.Base.Table.{select, update, exists}
use vpstools.Store.Status.{
  running, pending, failed, dead_letter, is_live, is_open, is_bad, is_running,
}
use vpstools.Store.Rows.{Execution, Target, number, text}
use vpstools.Store.Action.{Action, Env, pure, gets, modify, refuse_if, ◌>>=◌, ◌>>◌}
use vpstools.Audit.{record_execution_event}
use vpstools.Queue.Backoff.{retry_backoff_seconds}

-- The execution that a target joins: of the organisation, and queued or running.
abbrev pub live_execution : String → String → Execution → Bool
live_execution org id e = e.id == id && (e.organisation_id == org && is_live e.status)

-- The WHERE clause of the expired leases.
abbrev pub is_expired : Env → String → List Execution → Target → Bool
is_expired env org executions t =
    t.organisation_id == org
    && (exists (live_execution org t.execution_id) executions
        && (is_running t.status && passed t.lease_expires_at env.now))

-- `WHERE id = ? AND status = 'running'`
abbrev pub still_running : String → Target → Bool
still_running id t = t.id == id && is_running t.status

abbrev pub bury : Env → Target → Target
bury env t = record t {
  status = dead_letter;
  runner_id = none;
  lease_id = none;
  lease_expires_at = none;
  finished_at = some env.now;
  error_summary = some "runner lease expired after maximum attempts";
}

abbrev pub requeue : ℕ → Target → Target
requeue at t = record t {
  status = pending;
  runner_id = none;
  lease_id = none;
  lease_expires_at = none;
  next_attempt_at = some at;
}

-- One round of the loop, for a row that the query returned.
unfoldable pub reconcile_target : Env → String → Target → Action String (Unit {0})
reconcile_target env org t =
    if leb t.max_attempts t.attempt
    then (do
      refuse_if (env.fails "bury target") "bury target"
      modify (λ db. record db { targets = update (still_running t.id) (bury env) db.targets })
      record_execution_event env org t.execution_id t.id (some running) dead_letter
          "execution.target.dead_lettered"
          (("reason", text "lease_expired")
            ∷ ("attempt", number (pos t.attempt))
            ∷ ("max_attempts", number (pos t.max_attempts))
            ∷ []))
    else (do
      let backoff = retry_backoff_seconds t.attempt
      refuse_if (env.fails "requeue target") "requeue target"
      modify (λ db. record db {
        targets = update (still_running t.id) (requeue (env.now + backoff)) db.targets;
      })
      record_execution_event env org t.execution_id t.id (some running) pending
          "execution.target.lease_expired"
          (("retry_at_seconds", number (pos backoff))
            ∷ ("attempt", number (pos t.attempt))
            ∷ ("max_attempts", number (pos t.max_attempts))
            ∷ []))

unfoldable pub reconcile_each : Env → String → List Target → Action String (Unit {0})
reconcile_each env org [] = pure tt
reconcile_each env org (t ∷ ts) = do reconcile_target env org t; reconcile_each env org ts

-- The WHERE clause of the final update.
abbrev pub is_exhausted : String → List Target → Execution → Bool
is_exhausted org targets e =
    e.organisation_id == org
    && (is_live e.status
        && (not (exists (λ t. t.execution_id == e.id && is_open t.status) targets)
            && exists (λ t. t.execution_id == e.id && is_bad t.status) targets))

abbrev pub fail_execution : Env → Execution → Execution
fail_execution env e = record e {
  status = failed;
  finished_at = some env.now;
  error_summary = some "one or more targets were dead-lettered";
}

unfoldable pub finalize_reconciled_executions : Env → String → Action String (Unit {0})
finalize_reconciled_executions env org = do
  refuse_if (env.fails "finalize executions") "finalize executions"
  modify (λ db. record db {
    executions = update (is_exhausted org db.targets) (fail_execution env) db.executions;
  })

-- The rows are read before the loop changes any.
unfoldable pub reconcile_expired_leases : Env → String → Action String (Unit {0})
reconcile_expired_leases env org = do
  refuse_if (env.fails "read expired leases") "read expired leases"
  expired ← gets (λ db. select (is_expired env org db.executions) db.targets)
  reconcile_each env org expired
  finalize_reconciled_executions env org

unfoldable pub reconcile_organisations : Env → List String → Action String (Unit {0})
reconcile_organisations env [] = pure tt
reconcile_organisations env (org ∷ rest) = do
  reconcile_expired_leases env org
  reconcile_organisations env rest

unfoldable pub distinct : List String → List String
distinct [] = []
distinct (x ∷ xs) = let rest = distinct xs in if exists (λ y. y == x) rest then rest else x ∷ rest

orgs_of : List Target → List String
orgs_of [] = []
orgs_of (t ∷ ts) =
    let rest = orgs_of ts in if is_running t.status then t.organisation_id ∷ rest else rest

-- `reconcileAllOrganisationLeases`, with no transaction round it.
unfoldable pub reconcile_all_organisation_leases : Env → Action String (Unit {0})
unfolding distinct orgs_of
reconcile_all_organisation_leases env = do
  refuse_if (env.fails "list organisations") "list organisations"
  orgs ← gets (λ db. distinct (orgs_of db.targets))
  reconcile_organisations env orgs
