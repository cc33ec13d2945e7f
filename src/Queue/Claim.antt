-- ===== src/Queue/Claim.antt =====
-- handleClaimJob (apps/api/jobs.go).
pub mod Choice
pub mod Refusal
pub mod Grant
use Prim.Native.String.{◌++◌}
use vpstools.Base.{
  ℕ, ◌+◌, ◌*◌, String, Bool, true, false, not, ◌&&◌, ◌||◌, Option, none, some, List, [], ◌∷◌, ◌==◌,
  ltb, eqb, passed, coalesce, if◌then◌else◌,
}
use vpstools.Base.Table.{find, update, count, exists}
use vpstools.Store.Status.{Status, running, is_live, is_pending, is_running, same_open}
use vpstools.Store.Rows.{
  Db, Execution, Target, Server, Runner, RunnerScope, RunnerStatus, active, text,
}
use vpstools.Store.Action.{
  Result, ok, err, Action, Env, pure, raise, gets, modify, refuse_if, on_error, when, transaction,
  ◌>>=◌, ◌>>◌,
}
use vpstools.Audit.{record_execution_event}
use vpstools.Jobsign.{Claims}
use vpstools.Throttle.{Throttle, due}
use vpstools.Runners.Reply.{Reply, Job, failure, status, dispatched}
use vpstools.Runners.Auth.{authenticate_bound_runner}
use vpstools.Queue.Reconcile.{reconcile_expired_leases}

-- The tables, and the throttle of the process, which no rollback touches.
pub record Api : Type 0 where
  pub db : Db
  pub throttle : Throttle

-- `next_attempt_at IS NULL OR next_attempt_at <= now`
abbrev pub is_ready : Option ℕ → ℕ → Bool
is_ready none now = true
is_ready (some t) now = passed (some t) now

-- Pending and ready, or running under a lease that has expired.
abbrev pub is_claimable : ℕ → Target → Bool
is_claimable now t =
    (is_pending t.status && is_ready t.next_attempt_at now)
    || (is_running t.status && passed t.lease_expires_at now)

abbrev is_active : RunnerStatus → Bool
is_active active = true
is_active _ = false

-- A scope that covers the server: all, or this very one.
abbrev pub covers : String → String → RunnerScope → Bool
covers runner server s =
    s.runner_id == runner
    && (s.scope_type == "all" || (s.scope_type == "server" && s.scope_value == server))

abbrev pub active_runner : String → String → Runner → Bool
active_runner runner org r = r.id == runner && (r.organisation_id == org && is_active r.status)

-- The WHERE clause of the claim query over a target and its execution.
abbrev pub is_candidate : Env → String → String → String → Db → Target → Execution → Bool
is_candidate env org runner filter db t e =
    is_live e.status
    && (e.organisation_id == org
        && ((filter == "" || t.id == filter)
            && (is_claimable env.now t
                && (ltb t.attempt t.max_attempts
                    && (exists (active_runner runner org) db.runners
                        && exists (covers runner t.server_id) db.scopes)))))

-- A row of the join of targets, executions and servers.
pub record Row : Type 0 where
  pub target : Target
  pub execution : Execution
  pub server : Server

unfoldable pub row_of : Target → Option Execution → Option Server → Option Row
row_of t (some e) (some s) = some (record { target = t; execution = e; server = s })
row_of t _ _ = none

unfoldable pub join : Db → Target → Option Row
unfolding row_of
join db t =
    row_of t (find (λ e. e.id == t.execution_id) db.executions)
      (find (λ s. s.id == t.server_id) db.servers)

-- ORDER BY requested_at LIMIT 1: of rows with the same time the first in the table.
abbrev earlier : Row → Option Row → Option Row
earlier r none = some r
earlier r (some best) =
    if ltb best.execution.requested_at r.execution.requested_at then some best else some r

unfoldable pub keep : Env → String → String → String → Db → Option Row → Option Row → Option Row
keep env org runner filter db none best = best
keep env org runner filter db (some r) best =
    if is_candidate env org runner filter db r.target r.execution then earlier r best else best

unfoldable pub claim_query : Env → String → String → String → Db → List Target → Option Row
unfolding keep join
claim_query env org runner filter db [] = none
claim_query env org runner filter db (t ∷ ts) =
    keep env org runner filter db (join db t) (claim_query env org runner filter db ts)

-- The WHERE clause of the update that takes the target.
abbrev pub takes : ℕ → Target → Target → Bool
takes now source t =
    t.id == source.id
    && (same_open source.status t.status && (ltb t.attempt t.max_attempts && is_claimable now t))

-- A lease lasts five minutes.
abbrev pub lease_seconds : ℕ
lease_seconds = 300

abbrev pub lease : Env → String → Target → Target
lease env runner t = record t {
  status = running;
  runner_id = some runner;
  lease_id = some ("lease_" ++ env.fresh "lease");
  lease_expires_at = some (env.now + lease_seconds);
  attempt = t.attempt + 1;
  started_at = some (coalesce t.started_at env.now);
}

abbrev pub start_execution : Env → Execution → Execution
start_execution env e = record e {
  status = running;
  started_at = some (coalesce e.started_at env.now);
}

-- `COALESCE(NULLIF(e.command,''), e.command_preview)`
abbrev command_of : Execution → String
command_of e = if e.command == "" then e.command_preview else e.command

abbrev host_of : Server → String
host_of s = elim s.hostname [ some h ↦ h | none ↦ coalesce s.public_ip "" ]

abbrev pub claims_of : Env → String → Row → Claims
claims_of env runner r = record {
  execution_id = r.execution.id;
  target_id = r.target.id;
  lease_id = "lease_" ++ env.fresh "lease";
  runner_id = runner;
  command = command_of r.execution;
  host = host_of r.server;
  port = r.server.ssh_port;
  user = coalesce r.server.ssh_username "";
  timeout = r.execution.timeout_seconds;
  credential_ref = coalesce r.server.ssh_credential_ref "";
  host_key_fingerprint = coalesce r.server.ssh_host_key_fingerprint "";
  expires_at_unix = env.now + lease_seconds;
}

-- With no row the transaction is committed, whether or not that works.
unfoldable pub take_row : Env → String → String → Option Row → Action Reply (Option Claims)
take_row env org runner none = do
  refuse_if (env.fails "commit empty claim") (status 404 "no_jobs")
  pure none
take_row env org runner (some r) = do
  refuse_if (env.fails "failed to claim job") (failure 500 "failed to claim job")
  n ← gets (λ db. count (takes env.now r.target) db.targets)
  modify
      (λ db. record db { targets = update (takes env.now r.target) (lease env runner) db.targets })
  refuse_if (not (eqb n 1)) (failure 409 "job was claimed by another runner")
  refuse_if (env.fails "start execution") (failure 409 "job was claimed by another runner")
  modify (λ db. record db {
    executions =
        update (λ e. e.id == r.execution.id && is_live e.status) (start_execution env)
          db.executions;
  })
  on_error (λ e. failure 500 "failed to record execution timeline")
      (record_execution_event env org r.execution.id r.target.id (some r.target.status) running
        "execution.started"
        (("runner_id", text runner) ∷ ("lease_id", text ("lease_" ++ env.fresh "lease")) ∷ []))
  refuse_if (env.fails "failed to commit job claim") (failure 500 "failed to commit job claim")
  pure (some (claims_of env runner r))

unfoldable pub claim_tx : Env → String → String → String → Bool → Action Reply (Option Claims)
claim_tx env org runner filter reconcile = do
  when reconcile (
      on_error (λ e. failure 500 "failed to reconcile expired jobs")
        (reconcile_expired_leases env org))
  row ← gets (λ db.
      if env.fails "claim query" then none else claim_query env org runner filter db db.targets)
  take_row env org runner row

abbrev pub job_of : Claims → String → Job
job_of c signature = record {
  target_id = c.target_id;
  execution_id = c.execution_id;
  command = c.command;
  host = c.host;
  port = c.port;
  user = c.user;
  credential_ref = c.credential_ref;
  host_key_fingerprint = c.host_key_fingerprint;
  timeout = c.timeout;
  lease_id = c.lease_id;
  runner_id = c.runner_id;
  expires_at_unix = c.expires_at_unix;
  signature = signature;
}

-- What is sent once the transaction is over; `none` is a signer that fails.
abbrev pub send : (Claims → Option String) → Result Reply (Option Claims) → Reply
send sign (err r) = r
send sign (ok none) = status 404 "no_jobs"
send sign (ok (some c)) = elim (sign c) [
  | none ↦ failure 500 "failed to sign job"
  | some signature ↦ dispatched (job_of c signature)
]

-- The handler once the runner is known to act for the organisation.
unfoldable pub claim_for :
    Env → (Claims → Option String) → String → String → String → Api → Reply × Api
claim_for env sign org runner filter api =
    let (throttle, reconcile) = due api.throttle org (env.now * 1000000000) in
    let (r, db) = transaction (claim_tx env org runner filter reconcile) api.db in
    (send sign r, record { db = db; throttle = throttle })

unfoldable pub handle_claim_job :
    Env → (Claims → Option String) → String → String → String → Api → Reply × Api
handle_claim_job env sign bearer runner filter api =
    elim (authenticate_bound_runner env bearer runner api.db).0 [
      | err e ↦ (failure 401 e, api)
      | ok org ↦
          if env.fails "tenant database context unavailable"
          then (failure 500 "tenant database context unavailable", api)
          else if runner == ""
          then (failure 400 "runner_id is required", api)
          else if env.fails "failed to start job claim"
          then (failure 500 "failed to start job claim", api)
          else claim_for env sign org runner filter api
    ]
