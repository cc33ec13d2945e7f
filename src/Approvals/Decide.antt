-- ===== src/Approvals/Decide.antt =====
-- handleApprove, createExecutionFromApprovalTx and handleDeny (apps/api/runbooks.go). The notification
-- after the commit is left out: its failure changes nothing. A body that does not decode is an empty
-- note.
use vpstools.Base.{
  ℕ, String, Bool, true, false, not, ◌&&◌, Option, none, some, [], ◌∷◌, ◌++◌, ◌==◌, eqb, ltb,
  null_if_empty, if◌then◌else◌,
}
use vpstools.Base.Table.{find, update, count}
use vpstools.Store.Status.{queued}
use vpstools.Store.Catalogue.{
  ApprovalRequest, ApprovalStatus, Membership, Intent, approved, denied, is_waiting,
}
use vpstools.Store.Rows.{Db, Execution, text}
use vpstools.Store.Action.{
  Action, Env, pure, raise, gets, or_raise, modify, refuse_if, on_error, when, transaction, ◌>>=◌,
  ◌>>◌,
}
use vpstools.Authz.{Actor, deny, is_senior}
use vpstools.Audit.{record_execution_event, write_audit_event_tx, write_audit_event}
use vpstools.Runners.Denial.{write_denial}
use vpstools.Runners.Reply.{Reply, failure, status, approval_granted, respond}
use vpstools.Executions.Create.{execution_id, insert_targets}
use vpstools.Approvals.Request.{Outside}
use vpstools.Approvals.Run.{timeout_of}

-- `id = ? AND organisation_id = ?`
abbrev pub is_request : String → String → ApprovalRequest → Bool
is_request id org a = a.id == id && a.organisation_id == org

-- `expires_at > now`
abbrev pub is_live : Option ℕ → ℕ → Bool
is_live none now = false
is_live (some t) now = ltb now t

-- `… AND status = 'pending' AND expires_at > now`
abbrev pub is_undecided : String → String → ℕ → ApprovalRequest → Bool
is_undecided id org now a = is_request id org a && (is_waiting a.status && is_live a.expires_at now)

abbrev pub is_pending_request : String → String → ApprovalRequest → Bool
is_pending_request id org a = is_request id org a && is_waiting a.status

abbrev pub is_member : String → String → Membership → Bool
is_member user org m = m.user_id == user && (m.organisation_id == org && m.status == "active")

-- The request joined with the active membership of its requester.
abbrev pub with_role : Db → Option ApprovalRequest → Option (ApprovalRequest × String)
with_role db none = none
with_role db (some a) =
    elim (find (is_member a.requester_user_id a.organisation_id) db.memberships) [
      | none ↦ none
      | some m ↦ some (a, m.role)
    ]

unfoldable pub find_request : String → String → Db → Option (ApprovalRequest × String)
find_request id org db = with_role db (find (is_request id org) db.approvals)

abbrev pub is_none : Option ℕ → Bool
is_none none = true
is_none (some t) = false

abbrev pub decide : Env → Actor → ApprovalStatus → String → ApprovalRequest → ApprovalRequest
decide env actor decision note a = record a {
  status = decision;
  approver_user_id = some actor.user_id;
  decided_at = some env.now;
  decision_note = null_if_empty note;
}

-- The update of a decision, and the number of rows that it affects.
unfoldable pub mark : Env → Actor → ApprovalStatus → String → String → Action Reply ℕ
mark env actor decision id note = do
  n ← gets (λ db. count (is_undecided id actor.organisation_id env.now) db.approvals)
  modify (λ db. record db {
    approvals =
        update (is_undecided id actor.organisation_id env.now) (decide env actor decision note)
          db.approvals;
  })
  pure n

abbrev expired_request : Env → Option ApprovalRequest → Bool
expired_request env none = false
expired_request env (some a) = is_waiting a.status && not (is_live a.expires_at env.now)

-- Why a decision affected no row.
unfoldable pub undecided : Env → Actor → String → String → Action Reply (Unit {0})
undecided env actor id message = do
  found ← gets (λ db. find (is_request id actor.organisation_id) db.approvals)
  refuse_if (not (env.fails "inspect expiry") && expired_request env found)
      (failure 409 "approval has expired")
  raise (failure 404 message)

-- The environment that the execution names.
abbrev pub environment_of : Intent → String
environment_of i = if i.environment == "" then "development" else i.environment

abbrev pub approved_execution :
    Env → Outside → Actor → String → ApprovalRequest → Intent → Execution
approved_execution env out actor id a i = record {
  id = execution_id env;
  organisation_id = actor.organisation_id;
  actor_user_id = a.requester_user_id;
  status = queued;
  environment = environment_of i;
  risk_level = a.risk_level;
  reason = a.reason;
  command = i.command;
  command_preview = out.redact i.command;
  timeout_seconds = timeout_of i.timeout;
  requested_at = env.now;
  started_at = none;
  finished_at = none;
  error_summary = none;
  approval_id = some id;
}

abbrev not_created : Reply
not_created = failure 500 "failed to create execution from approval"

-- `createExecutionFromApprovalTx`; its caller reports every error in one way.
unfoldable pub create_execution_from_approval :
    Env → Outside → Actor → String → ApprovalRequest → Action Reply (Unit {0})
create_execution_from_approval env out actor id a = do
  intent ← or_raise a.request_payload not_created
  refuse_if (intent.command == "") not_created
  refuse_if (env.fails "failed to create execution") not_created
  modify (λ db. record db {
    executions = db.executions ++ approved_execution env out actor id a intent ∷ [];
  })
  on_error (λ e. not_created) (insert_targets env actor.organisation_id intent.target_ids)
  on_error (λ e. not_created)
      (record_execution_event env actor.organisation_id (execution_id env) "" none queued
        "runbook.queued" (("runbook_id", text intent.runbook_id) ∷ []))
  on_error (λ e. not_created)
      (write_audit_event_tx env actor.organisation_id a.requester_user_id "runbook.executed"
        "runbook" intent.runbook_id "queued"
        (("execution_id", text (execution_id env))
          ∷ ("command", text (out.redact intent.command))
          ∷ ("delegated_by", text actor.user_id)
          ∷ []))

unfoldable pub approve_tx :
    Env → Outside → Actor → String → String → ApprovalRequest → Action Reply Reply
unfolding mark undecided
approve_tx env out actor id note a = do
  refuse_if (env.fails "failed to approve") (failure 500 "failed to approve")
  n ← mark env actor approved id note
  refuse_if (env.fails "failed to inspect approval update")
      (failure 500 "failed to inspect approval update")
  when (eqb n 0) (undecided env actor id "approval not found or already decided")
  create_execution_from_approval env out actor id a
  on_error (λ e. failure 500 "failed to record approval audit event")
      (write_audit_event_tx env actor.organisation_id actor.user_id "approval.approved" "approval"
        id "approved" (("execution_id", text (execution_id env)) ∷ []))
  refuse_if (env.fails "failed to commit approval") (failure 500 "failed to commit approval")
  pure (approval_granted (execution_id env))

unfoldable pub approve : Env → Outside → Actor → String → String → Action Reply Reply
approve env out actor id note = do
  when (not (is_senior actor)) (
      write_denial env actor "approval.approved" "approval" id
        (deny "approve_requires_senior" "Approving requires senior engineer or above."))
  refuse_if (env.fails "find approval") (failure 404 "approval not found")
  found ← gets (find_request id actor.organisation_id)
  (a, role) ← or_raise found (failure 404 "approval not found")
  refuse_if (a.requester_user_id == actor.user_id)
      (failure 403 "requesters cannot approve their own requests")
  refuse_if (is_none a.expires_at) (failure 409 "approval has expired")
  refuse_if (env.fails "failed to start approval transaction")
      (failure 500 "failed to start approval transaction")
  transaction (approve_tx env out actor id note a)

unfoldable pub handle_approve : Env → Outside → Actor → String → String → Db → Reply × Db
handle_approve env out actor id note = respond (approve env out actor id note)

-- No transaction joins the statements of a denial.
unfoldable pub deny_request : Env → Outside → Actor → String → String → Action Reply Reply
unfolding mark undecided
deny_request env out actor id note = do
  when (not (is_senior actor)) (
      write_denial env actor "approval.denied" "approval" id
        (deny "deny_requires_senior" "Denying requires senior engineer or above."))
  refuse_if (out.texts.trim note == "") (failure 400 "a denial note is required")
  refuse_if (env.fails "find approval") (failure 404 "approval not found or already decided")
  found ← gets (λ db. find (is_pending_request id actor.organisation_id) db.approvals)
  a ← or_raise found (failure 404 "approval not found or already decided")
  refuse_if (is_none a.expires_at) (failure 409 "approval has expired")
  refuse_if (env.fails "failed to deny") (failure 500 "failed to deny")
  n ← mark env actor denied id note
  refuse_if (env.fails "failed to inspect denial update")
      (failure 500 "failed to inspect denial update")
  when (eqb n 0) (undecided env actor id "approval not found")
  write_audit_event env actor.organisation_id actor.user_id "approval.denied" "approval" id "denied"
      []
  pure (status 200 "denied")

unfoldable pub handle_deny : Env → Outside → Actor → String → String → Db → Reply × Db
handle_deny env out actor id note = respond (deny_request env out actor id note)
