-- ===== src/Queue/Submit/Handle.antt =====
-- The rest of handleSubmitResult (apps/api/jobs.go): the final result, the receipt, and the handler.
use vpstools.Base.{
  ℕ, String, Bool, not, ◌&&◌, Option, none, some, [], ◌∷◌, ◌==◌, ltb, eqb, null_if_empty,
  if◌then◌else◌,
}
use vpstools.Base.Int.{pos}
use vpstools.Base.Table.{find, update, count}
use vpstools.Store.Status.{
  Status, running, succeeded, failed, word, is_open, is_bad, is_running, is_failed, is_dead,
}
use vpstools.Store.Rows.{Db, Execution, Target, Receipt, number}
use vpstools.Store.Action.{
  Action, Env, pure, gets, or_raise, modify, refuse_if, on_error, when, transaction, ◌>>=◌, ◌>>◌,
}
use vpstools.Audit.{record_execution_event, write_audit_event_tx}
use vpstools.Runners.Reply.{Reply, failure, status, raw, respond}
use vpstools.Runners.Auth.{authenticate_runner_credential, authenticate_bound_runner}
use vpstools.Queue.Submit.{
  Submission, Outside, is_invalid, redacted, is_receipt, held_by, is_owned, outcome,
  persist_execution_artifacts, insert_result_receipt, finish, explain, schedule_retry,
}

-- `WHERE id = ? AND organisation_id = ? AND status = 'running'`
abbrev pub is_finishing : String → Submission → Execution → Bool
is_finishing org q e = e.id == q.execution_id && (e.organisation_id == org && is_running e.status)

abbrev pub final_status : ℕ → Status
final_status bad = if ltb 0 bad then failed else succeeded

abbrev pub finish_execution : Env → Submission → Status → Execution → Execution
finish_execution env q to e = record e {
  status = to;
  finished_at = some env.now;
  error_summary = null_if_empty q.error;
}

-- The last target of an execution ends it.
unfoldable pub finalize_execution : Env → String → Submission → Status → Action Reply (Unit {0})
finalize_execution env org q to = do
  refuse_if (env.fails "failed to finalize execution") (failure 500 "failed to finalize execution")
  n ← gets (λ db. count (is_finishing org q) db.executions)
  modify (λ db. record db {
    executions = update (is_finishing org q) (finish_execution env q to) db.executions;
  })
  refuse_if (not (eqb n 1)) (failure 409 "execution is no longer running")

-- The status that the code reports is the one of the execution once no target is left.
unfoldable pub complete : Env → String → Submission → String → Target → Status → Action Reply Reply
complete env org q hash t to = do
  refuse_if (env.fails "failed to inspect execution state")
      (failure 500 "failed to inspect execution state")
  remaining ←
      gets (λ db. count (λ x. x.execution_id == q.execution_id && is_open x.status) db.targets)
  refuse_if (env.fails "failed to inspect execution result")
      (failure 500 "failed to inspect execution result")
  bad ← gets (λ db. count (λ x. x.execution_id == q.execution_id && is_bad x.status) db.targets)
  let last = eqb remaining 0
  let reported = if last then final_status bad else to
  when last (finalize_execution env org q reported)
  on_error (λ e. failure 500 "failed to record execution timeline")
      (record_execution_event env org q.execution_id q.target_id (some t.status) reported
        "execution.target.completed"
        (("exit_code", number q.exit_code) ∷ ("duration_ms", number q.duration_ms) ∷ []))
  when last (
      on_error (λ e. failure 500 "failed to record execution timeline")
        (record_execution_event env org q.execution_id "" (some running) reported
          "execution.completed" (("failed_targets", number (pos bad)) ∷ [])))
  on_error (λ e. failure 500 "failed to record execution audit")
      (write_audit_event_tx env org ""
        (if last then "execution.completed" else "execution.target.completed") "execution"
        q.execution_id (word reported)
        (("exit_code", number q.exit_code) ∷ ("duration_ms", number q.duration_ms) ∷ []))
  insert_result_receipt env org q hash "{\"status\":\"ok\"}"
  refuse_if (env.fails "failed to commit result") (failure 500 "failed to commit result")
  pure (status 200 "ok")

unfoldable pub mark_dead_letter : Env → Submission → Action Reply (Unit {0})
mark_dead_letter env q = do
  refuse_if (env.fails "failed to mark dead-letter job")
      (failure 500 "failed to mark dead-letter job")
  modify (λ db. record db { targets = update (λ x. x.id == q.target_id) explain db.targets })

-- The result of the target that holds the lease.
unfoldable pub store_result :
    Env → Outside → String → Submission → String → Target → Action Reply Reply
store_result env out org q hash t = do
  ids ← persist_execution_artifacts env out org q
  let to = outcome q t
  refuse_if (env.fails "store result") (failure 409 "target is not assigned to this runner")
  n ← gets (λ db. count (is_owned org q db) db.targets)
  modify (λ db. record db {
    targets = update (is_owned org q db) (finish env out q ids to) db.targets;
  })
  refuse_if (eqb n 0) (failure 409 "target is not assigned to this runner")
  when (is_dead to) (mark_dead_letter env q)
  if is_failed to && ltb t.attempt t.max_attempts
      then schedule_retry env org q hash t
      else complete env org q hash t to

-- The first result for a lease.
unfoldable pub apply_result : Env → Outside → String → Submission → String → Action Reply Reply
apply_result env out org q hash = do
  refuse_if (env.fails "read target") (failure 409 "target is not assigned to this runner")
  found ← gets (λ db. find (held_by q) db.targets)
  t ← or_raise found (failure 409 "target is not assigned to this runner")
  store_result env out org q hash t

-- A result for a lease that has a receipt: the same payload gets the stored reply again.
unfoldable pub replay : Env → String → Receipt → Action Reply Reply
replay env hash r = do
  refuse_if (not (r.payload_hash == hash))
      (failure 409 "result payload conflicts with existing receipt")
  refuse_if (env.fails "failed to replay result receipt")
      (failure 500 "failed to replay result receipt")
  pure (raw r.response_code r.response_body)

unfoldable pub on_receipt :
    Env → Outside → String → Submission → String → Option Receipt → Action Reply Reply
on_receipt env out org q hash (some r) = replay env hash r
on_receipt env out org q hash none = apply_result env out org q hash

unfoldable pub result_tx : Env → Outside → String → Submission → String → Action Reply Reply
result_tx env out org q hash = do
  refuse_if (env.fails "failed to inspect result receipt")
      (failure 500 "failed to inspect result receipt")
  receipt ← gets (λ db. find (is_receipt q) db.receipts)
  on_receipt env out org q hash receipt

unfoldable pub submit_result : Env → Outside → String → Submission → Action Reply Reply
submit_result env out org raw_q = do
  let q = redacted out raw_q
  refuse_if (env.fails "failed to start result transaction")
      (failure 500 "failed to start result transaction")
  transaction (result_tx env out org q (out.payload_hash q))

unfoldable pub accept_result : Env → Outside → String → Option Submission → Action Reply Reply
accept_result env out bearer body = do
  who ← on_error (failure 401) (authenticate_runner_credential env bearer)
  refuse_if (who.1 == "")
      (failure 401 "this endpoint requires a runner-bound credential; register the runner first")
  refuse_if (env.fails "tenant database context unavailable")
      (failure 500 "tenant database context unavailable")
  q ← or_raise body (failure 400 "invalid request body")
  refuse_if (is_invalid q) (failure 400 "invalid request body")
  org ← on_error (failure 401) (authenticate_bound_runner env bearer q.runner_id)
  submit_result env out who.0 q

unfoldable pub handle_submit_result : Env → Outside → String → Option Submission → Db → Reply × Db
handle_submit_result env out bearer body = respond (accept_result env out bearer body)
