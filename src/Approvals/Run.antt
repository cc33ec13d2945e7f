-- ===== src/Approvals/Run.antt =====
-- handleRunRunbook (apps/api/runbooks.go). The notification that follows the commit is left out: its
-- failure changes nothing. A body that does not decode is a request with empty fields.
use Prim.Native.String.{◌++◌ as text_append}
use vpstools.Base.{
  ℕ, ◌+◌, String, Bool, not, ◌&&◌, ◌||◌, none, some, [], ◌∷◌, ◌++◌, ◌==◌, length, if◌then◌else◌,
}
use vpstools.Base.Int.{ℤ, pos, ltb_ℤ}
use vpstools.Base.Table.{exists}
use vpstools.Store.Status.{queued}
use vpstools.Store.Catalogue.{ApprovalRequest, waiting}
use vpstools.Store.Rows.{Db, Execution, number, text}
use vpstools.Store.Action.{
  Action, Env, Result, ok, err, pure, raise, gets, modify, refuse_if, on_error, when, transaction,
  ◌>>=◌, ◌>>◌,
}
use vpstools.Authz.{Actor}
use vpstools.Authz.Policy.{check_runbook_execution}
use vpstools.Audit.{record_execution_event, write_audit_event_tx}
use vpstools.Runners.Denial.{write_denial}
use vpstools.Runners.Reply.{Reply, failure, raw, preflight, respond}
use vpstools.Executions.Create.{
  CreateError, refused, key_taken, valid_idempotency_key, execution_id, insert_targets,
}
use vpstools.Executions.Create.Handle.{answer_conflict, unless_replayed}
use vpstools.Approvals.Plan.{Plan, make_plan}
use vpstools.Approvals.Request.{
  RunRequest, Outside, approval_expiry_seconds, requires_approval, takes_runbook_key,
  replay_runbook_idempotency,
}

abbrev pub approval_id_of : Env → String
approval_id_of env = text_append "apr_" (env.fresh "approval")

-- A timeout that is not positive is five minutes.
abbrev pub timeout_of : ℤ → ℤ
timeout_of t = if ltb_ℤ t 1 then pos 300 else t

abbrev pub new_approval : Env → Outside → Actor → Plan → ApprovalRequest
new_approval env out actor p = record {
  id = approval_id_of env;
  organisation_id = actor.organisation_id;
  requester_user_id = actor.user_id;
  approver_user_id = none;
  status = waiting;
  risk_level = p.version.risk_level;
  reason = p.request.reason;
  target_id = p.request.target;
  request_payload = some record {
    command = p.command;
    runbook_id = p.runbook.id;
    target_ids = p.ids;
    environment = p.environment;
    timeout = timeout_of p.definition.timeout_seconds;
  };
  expires_at = some (env.now + approval_expiry_seconds out.approval_expiry);
  decided_at = none;
  decision_note = none;
}

unfoldable pub insert_runbook_key :
    Env → Actor → Plan → String → String → ℕ → String → Action CreateError (Unit {0})
insert_runbook_key env actor p resource id status body = do
  taken ← gets (λ db. exists (takes_runbook_key actor p.key) db.runbook_keys)
  refuse_if (env.fails "insert runbook key" || taken) key_taken
  modify (λ db. record db {
    runbook_keys =
        db.runbook_keys
        ++ record {
          organisation_id = actor.organisation_id;
          user_id = actor.user_id;
          idempotency_key = p.key;
          payload_hash = p.hash;
          resource_type = resource;
          resource_id = id;
          response_status = status;
          response_body = body;
        }
          ∷ [];
  })

-- The id of a request is its primary key.
unfoldable pub approval_tx : Env → Outside → Actor → Plan → Action CreateError Reply
unfolding approval_expiry_seconds
approval_tx env out actor p = do
  known ← gets (λ db. exists (λ a. a.id == approval_id_of env) db.approvals)
  refuse_if (env.fails "failed to create approval request" || known)
      (refused (failure 500 "failed to create approval request"))
  modify (λ db. record db { approvals = db.approvals ++ new_approval env out actor p ∷ [] })
  on_error (λ e. refused (failure 500 "failed to record approval audit event"))
      (write_audit_event_tx env actor.organisation_id actor.user_id "approval.requested" "approval"
        (approval_id_of env) "pending"
        (("runbook_id", text p.runbook.id) ∷ ("target_count", number (pos (length p.ids))) ∷ []))
  let body = out.awaiting_body (approval_id_of env)
  when (not (p.key == "")) (insert_runbook_key env actor p "approval" (approval_id_of env) 202 body)
  refuse_if (env.fails "failed to commit approval request")
      (refused (failure 500 "failed to commit approval request"))
  pure (raw 202 body)

abbrev pub runbook_execution : Env → Outside → Actor → Plan → Execution
runbook_execution env out actor p = record {
  id = execution_id env;
  organisation_id = actor.organisation_id;
  actor_user_id = actor.user_id;
  status = queued;
  environment = p.environment;
  risk_level = p.version.risk_level;
  reason = p.request.reason;
  command = p.command;
  command_preview = out.redact p.command;
  timeout_seconds = timeout_of p.definition.timeout_seconds;
  requested_at = env.now;
  started_at = none;
  finished_at = none;
  error_summary = none;
  approval_id = none;
}

unfoldable pub run_tx : Env → Outside → Actor → Plan → Action CreateError Reply
run_tx env out actor p = do
  refuse_if (env.fails "failed to create execution")
      (refused (failure 500 "failed to create execution"))
  modify (λ db. record db { executions = db.executions ++ runbook_execution env out actor p ∷ [] })
  insert_targets env actor.organisation_id p.ids
  on_error (λ e. refused (failure 500 "failed to record execution timeline"))
      (record_execution_event env actor.organisation_id (execution_id env) "" none queued
        "runbook.queued" (("runbook_id", text p.runbook.id) ∷ []))
  on_error (λ e. refused (failure 500 "failed to record execution audit event"))
      (write_audit_event_tx env actor.organisation_id actor.user_id "runbook.executed" "runbook"
        p.runbook.id "queued"
        (("execution_id", text (execution_id env)) ∷ ("command", text (out.redact p.command)) ∷ []))
  let body = out.queued_body (execution_id env) (length p.ids)
  when (not (p.key == "")) (insert_runbook_key env actor p "execution" (execution_id env) 201 body)
  refuse_if (env.fails "failed to commit execution")
      (refused (failure 500 "failed to commit execution"))
  pure (raw 201 body)

-- After a conflict of keys the other request's answer is looked up.
unfoldable pub settle_conflict : Env → Actor → Plan → Result CreateError Reply → Action Reply Reply
settle_conflict env actor p (ok r) db = pure r db
settle_conflict env actor p (err (refused r)) db = raise r db
settle_conflict env actor p (err key_taken) db =
    answer_conflict (replay_runbook_idempotency env actor p.key p.hash db).0 db

unfoldable pub commit_or_replay : Env → Actor → Plan → Action CreateError Reply → Action Reply Reply
commit_or_replay env actor p m db =
    let (r, db') = transaction m db in settle_conflict env actor p r db'

unfoldable pub request_approval : Env → Outside → Actor → Plan → Action Reply Reply
request_approval env out actor p = do
  refuse_if (out.texts.trim p.request.reason == "") (failure 400 "an approval reason is required")
  refuse_if (env.fails "failed to start approval transaction")
      (failure 500 "failed to start approval transaction")
  commit_or_replay env actor p (approval_tx env out actor p)

unfoldable pub run_directly : Env → Outside → Actor → Plan → Action Reply Reply
run_directly env out actor p = do
  let decision = check_runbook_execution actor p.environment p.version.risk_level p.request.reason
  when (not decision.allowed)
      (write_denial env actor "runbook.executed" "runbook" p.runbook.id decision)
  refuse_if (env.fails "failed to start execution transaction")
      (failure 500 "failed to start execution transaction")
  commit_or_replay env actor p (run_tx env out actor p)

unfoldable pub needs : Actor → Plan → Bool
needs actor p = requires_approval actor p.definition p.environment p.version.risk_level

unfoldable pub carry_out : Env → Outside → Actor → Plan → Action Reply Reply
carry_out env out actor p =
    if p.request.dry_run
    then pure (
        preflight (needs actor p) p.environment p.version.risk_level (length p.ids)
          (out.redact p.command))
    else if needs actor p
    then request_approval env out actor p
    else run_directly env out actor p

unfoldable pub run_new :
    Env → Outside → Actor → String → RunRequest → String → String → Action Reply Reply
run_new env out actor name q key hash = do
  p ← make_plan env out actor name q key hash
  carry_out env out actor p

unfoldable pub run_runbook :
    Env → Outside → Actor → String → String → RunRequest → Action Reply Reply
run_runbook env out actor name header q = do
  let key = out.texts.trim header
  refuse_if (not (key == "") && not (valid_idempotency_key key)) (
      failure 400
        "Idempotency-Key must contain only letters, numbers, '.', '_' or '-' and be at most 128 characters")
  refuse_if (q.dry_run && not (key == ""))
      (failure 400 "Idempotency-Key is only supported for submitted runbook executions")
  replayed ←
      if key == ""
      then pure none
      else replay_runbook_idempotency env actor key (out.payload_hash name q)
  unless_replayed replayed (run_new env out actor name q key (out.payload_hash name q))

unfoldable pub handle_run_runbook :
    Env → Outside → Actor → String → String → RunRequest → Db → Reply × Db
handle_run_runbook env out actor name header q = respond (run_runbook env out actor name header q)
