-- ===== src/Queue/Submit.antt =====
-- handleSubmitResult, insertResultReceipt and persistExecutionArtifacts (apps/api/jobs.go).
-- Parameters: redact.Stdout of packages/redact, SHA-256 over the JSON of the payload, the bytes of a
-- text, and the artifact store of packages/artifacts, where there is one.
pub mod Handle
pub mod Receipts
pub mod Resubmission
pub mod Refused
use vpstools.Base.{
  ℕ, ◌+◌, String, Bool, true, false, not, ◌&&◌, ◌||◌, Option, none, some, List, [], ◌∷◌, ◌++◌, ◌==◌,
  ltb, leb, eqb, holds, coalesce, null_if_empty, if◌then◌else◌,
}
use vpstools.Base.Int.{ℤ, pos, is_zero}
use vpstools.Base.Table.{find, update, count, exists}
use vpstools.Store.Status.{
  Status, pending, running, succeeded, failed, dead_letter, is_open, is_bad, is_running, is_failed,
  is_dead,
}
use vpstools.Store.Rows.{Db, Execution, Target, Runner, Receipt, ArtifactRecord, number, text}
use vpstools.Store.Action.{
  Action, Env, pure, gets, or_raise, modify, refuse_if, on_error, when, transaction, ◌>>=◌, ◌>>◌,
}
use vpstools.Audit.{record_execution_event, write_audit_event_tx}
use vpstools.Runners.Reply.{Reply, failure, status, raw, respond}
use vpstools.Runners.Auth.{authenticate_runner_credential, authenticate_bound_runner}
use vpstools.Queue.Backoff.{retry_backoff_seconds}
use vpstools.Queue.Renew.{LeaseRequest, is_held}

pub record Submission : Type 0 where
  pub execution_id : String
  pub target_id : String
  pub runner_id : String
  pub lease_id : String
  pub exit_code : ℤ
  pub stdout : String
  pub stderr : String
  pub error : String
  pub duration_ms : ℤ

pub record Outside : Type 0 where
  pub redact : String → String
  pub payload_hash : Submission → String
  pub size : String → ℕ
  -- whether the store takes a value under an id; no function when there is no store
  pub put : Option (String → String → Bool)
  -- the names that the code formats, by execution, target and kind
  pub artifact_id : String → String → String → String
  pub owner_type : String → String

abbrev pub is_invalid : Submission → Bool
is_invalid q =
    q.execution_id == "" || (q.target_id == "" || (q.runner_id == "" || q.lease_id == ""))

abbrev pub redacted : Outside → Submission → Submission
redacted out q = record q { stdout = out.redact q.stdout; stderr = out.redact q.stderr }

-- `target_id = ? AND lease_id = ?`
abbrev pub is_receipt : Submission → Receipt → Bool
is_receipt q r = r.target_id == q.target_id && r.lease_id == q.lease_id

abbrev pub held_by : Submission → Target → Bool
held_by q = is_held (record {
  execution_id = q.execution_id;
  target_id = q.target_id;
  runner_id = q.runner_id;
  lease_id = q.lease_id;
})

-- The WHERE clause of the update that stores the result.
abbrev pub is_owned : String → Submission → Db → Target → Bool
is_owned org q db t =
    held_by q t
    && (exists (λ e. e.id == t.execution_id && e.organisation_id == org) db.executions
        && exists (λ r. holds t.runner_id r.id && r.organisation_id == org) db.runners)

-- The status of the target: failed becomes dead_letter on the last attempt.
abbrev pub outcome : Submission → Target → Status
outcome q t =
    if not (is_zero q.exit_code) || not (q.error == "")
    then (if leb t.max_attempts t.attempt then dead_letter else failed)
    else succeeded

abbrev pub inline_limit : ℕ
inline_limit = 65536

-- ON CONFLICT (id) DO UPDATE.
put_artifact : ArtifactRecord → List ArtifactRecord → List ArtifactRecord
put_artifact a [] = a ∷ []
put_artifact a (x ∷ xs) = let rest = x ∷ put_artifact a xs in if x.id == a.id then a ∷ xs else rest

-- The id under which a text is stored, empty for one that stays in the row.
unfoldable pub store_artifact :
    Env
    → Outside
    → (String → String → Bool)
    → String
    → Submission
    → String
    → String
    → Action Reply String
unfolding put_artifact
store_artifact env out put org q kind value =
    if leb (out.size value) inline_limit then pure "" else do
      let id = out.artifact_id q.execution_id q.target_id kind
      refuse_if (not (put id value)) (failure 500 "failed to persist execution output")
      refuse_if (env.fails "insert artifact") (failure 500 "failed to persist execution output")
      modify (λ db. record db {
        artifacts =
            put_artifact
              (record {
                id = id;
                organisation_id = org;
                owner_type = out.owner_type kind;
                owner_id = q.target_id;
                byte_size = out.size value;
              })
              db.artifacts;
      })
      pure id

unfoldable pub persist_in :
    Env
    → Outside
    → String
    → Submission
    → Option (String → String → Bool)
    → Action Reply (String × String)
persist_in env out org q none = pure ("", "")
persist_in env out org q (some put) = do
  stdout_id ← store_artifact env out put org q "stdout" q.stdout
  stderr_id ← store_artifact env out put org q "stderr" q.stderr
  pure (stdout_id, stderr_id)

unfoldable pub persist_execution_artifacts :
    Env → Outside → String → Submission → Action Reply (String × String)
persist_execution_artifacts env out org q = persist_in env out org q out.put

abbrev pub receipt_of : String → Submission → String → String → Receipt
receipt_of org q hash body = record {
  organisation_id = org;
  execution_id = q.execution_id;
  target_id = q.target_id;
  lease_id = q.lease_id;
  runner_id = q.runner_id;
  payload_hash = hash;
  response_code = 200;
  response_body = body;
}

unfoldable pub insert_result_receipt :
    Env → String → Submission → String → String → Action Reply (Unit {0})
insert_result_receipt env org q hash body = do
  refuse_if (env.fails "failed to record result receipt")
      (failure 500 "failed to record result receipt")
  modify (λ db. record db { receipts = db.receipts ++ receipt_of org q hash body ∷ [] })

-- The columns that a result writes.
abbrev pub finish : Env → Outside → Submission → (String × String) → Status → Target → Target
finish env out q ids to t = record t {
  status = to;
  exit_code = some q.exit_code;
  error_summary = null_if_empty q.error;
  stdout = if ids.0 == "" then q.stdout else "";
  stderr = if ids.1 == "" then q.stderr else "";
  stdout_artifact_id = null_if_empty ids.0;
  stderr_artifact_id = null_if_empty ids.1;
  stdout_bytes = out.size q.stdout;
  stderr_bytes = out.size q.stderr;
  lease_expires_at = none;
  finished_at = some env.now;
}

-- `COALESCE(NULLIF(error_summary,''), 'maximum attempts exhausted')`
abbrev pub explain : Target → Target
explain t = record t {
  error_summary =
      some (coalesce (null_if_empty (coalesce t.error_summary "")) "maximum attempts exhausted");
}

abbrev pub retry_at : ℕ → Target → Target
retry_at at t = record t {
  status = pending;
  runner_id = none;
  lease_id = none;
  lease_expires_at = none;
  finished_at = none;
  next_attempt_at = some at;
}

-- A failed attempt that is not the last.
unfoldable pub schedule_retry : Env → String → Submission → String → Target → Action Reply Reply
schedule_retry env org q hash t = do
  let backoff = retry_backoff_seconds t.attempt
  refuse_if (env.fails "failed to schedule retry") (failure 500 "failed to schedule retry")
  n ← gets (λ db. count (λ x. x.id == q.target_id && is_failed x.status) db.targets)
  modify (λ db. record db {
    targets =
        update (λ x. x.id == q.target_id && is_failed x.status) (retry_at (env.now + backoff))
          db.targets;
  })
  refuse_if (not (eqb n 1)) (failure 409 "target retry state changed")
  on_error (λ e. failure 500 "failed to record retry timeline")
      (record_execution_event env org q.execution_id q.target_id (some failed) pending
        "execution.target.retry_scheduled"
        (("retry_at_seconds", number (pos backoff))
          ∷ ("attempt", number (pos t.attempt))
          ∷ ("max_attempts", number (pos t.max_attempts))
          ∷ []))
  on_error (λ e. failure 500 "failed to record retry audit")
      (write_audit_event_tx env org "" "execution.retry_scheduled" "execution" q.execution_id
        "pending"
        (("target_id", text q.target_id)
          ∷ ("attempt", number (pos t.attempt))
          ∷ ("max_attempts", number (pos t.max_attempts))
          ∷ []))
  insert_result_receipt env org q hash "{\"status\":\"retry_scheduled\"}"
  refuse_if (env.fails "failed to commit result") (failure 500 "failed to commit result")
  pure (status 200 "retry_scheduled")
