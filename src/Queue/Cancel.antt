-- ===== src/Queue/Cancel.antt =====
-- handleCancelExecution and canManageExecution (apps/api/executions.go).
pub mod Effect
use vpstools.Base.{
  String, Bool, true, false, not, ◌&&◌, ◌||◌, Option, none, some, [], ◌==◌, eqb, if◌then◌else◌,
}
use vpstools.Base.Table.{find, update, count}
use vpstools.Store.Status.{cancelled, is_cancellable}
use vpstools.Store.Rows.{Db, Execution, Target}
use vpstools.Store.Action.{Action, Env, pure, gets, or_raise, modify, refuse_if, when, ◌>>=◌, ◌>>◌}
use vpstools.Authz.{Actor}
use vpstools.Audit.{write_audit_event}
use vpstools.Runners.Reply.{Reply, failure, status, respond}

-- `lower_trim` is `strings.ToLower(strings.TrimSpace(role))`.
unfoldable pub can_manage_execution : (String → String) → String → Bool
can_manage_execution lower_trim role =
    lower_trim role == "owner"
    || (lower_trim role == "admin" || lower_trim role == "senior_engineer")

-- `WHERE id = ? AND organisation_id = ? AND status IN ('created','queued')`
abbrev pub can_cancel : String → String → Execution → Bool
can_cancel id org e = e.id == id && (e.organisation_id == org && is_cancellable e.status)

-- The second statement's error is dropped, and no transaction joins the two.
unfoldable pub cancel_execution : Env → (String → String) → Actor → String → Action Reply Reply
cancel_execution env lower_trim actor id = do
  refuse_if (env.fails "failed to inspect execution") (failure 500 "failed to inspect execution")
  found ← gets (λ db. find (can_cancel id actor.organisation_id) db.executions)
  e ← or_raise found (failure 400 "execution not cancellable")
  refuse_if
      (not (actor.user_id == e.actor_user_id) && not (can_manage_execution lower_trim actor.role))
      (failure 403 "only the requester or a senior operator can cancel this execution")
  refuse_if (env.fails "failed to cancel") (failure 500 "failed to cancel")
  n ← gets (λ db. count (can_cancel id actor.organisation_id) db.executions)
  modify (λ db. record db {
    executions =
        update (can_cancel id actor.organisation_id)
          (λ x. record x { status = cancelled; finished_at = some env.now }) db.executions;
  })
  refuse_if (eqb n 0) (failure 400 "execution not cancellable")
  when (not (env.fails "cancel targets")) (
      modify (λ db. record db {
        targets =
            update (λ t. t.execution_id == id) (λ t. record t { status = cancelled }) db.targets;
      }))
  write_audit_event env actor.organisation_id actor.user_id "execution.cancelled" "execution" id
      "cancelled" []
  pure (status 200 "cancelled")

unfoldable pub handle_cancel_execution : Env → (String → String) → Actor → String → Db → Reply × Db
handle_cancel_execution env lower_trim actor id = respond (cancel_execution env lower_trim actor id)
