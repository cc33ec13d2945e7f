-- ===== src/Runners/Manage.antt =====
-- Creating, pausing and revoking runners (apps/api/runners.go).
-- A request body that does not decode is `none`.
use vpstools.Base.{
  String, Bool, not, ◌&&◌, Option, none, some, [], ◌∷◌, ◌++◌, ◌==◌, eqb, if◌then◌else◌,
}
use vpstools.Base.Table.{update, count}
use vpstools.Authz.{Actor, can_manage_runners}
use vpstools.Store.Rows.{Db, Runner, RunnerStatus, runner_pending, active, paused, revoked, text}
use vpstools.Store.Action.{Env, pure, gets, or_raise, modify, refuse_if, when, ◌>>=◌, ◌>>◌}
use vpstools.Audit.{write_audit_event}
use vpstools.Runners.Reply.{Reply, failure, status, created, respond}
use vpstools.Runners.Denial.{write_denial}
use vpstools.Runners.Auth.{is_revoked, is_runner}
use vpstools.Runners.Credentials.{not_found, management_required, revoke_current}

abbrev set_status : RunnerStatus → String → Runner → Runner
set_status s name r = record r { name = name; status = s }

-- The status word of an update: empty means active.
abbrev pub wanted : String → Option RunnerStatus
wanted s =
    if s == ""
    then some active
    else if s == "active"
    then some active
    else if s == "paused"
    then some paused
    else none

-- `WHERE id = ? AND organisation_id = ? AND status != 'revoked'`
abbrev pub manageable : String → String → Runner → Bool
manageable id org r = is_runner id org r && not (is_revoked r.status)

-- `handleUpdateRunner`; `trim` is `strings.TrimSpace`.
unfoldable pub handle_update_runner :
    Env → (String → String) → Actor → String → Option (String × String) → Db → Reply × Db
unfolding respond ◌>>=◌
handle_update_runner env trim actor id body = respond (do
  when (not (can_manage_runners actor))
      (write_denial env actor "runner.updated" "runner" id management_required)
  req ← or_raise body (failure 400 "name is required")
  refuse_if (trim req.0 == "") (failure 400 "name is required")
  s ← or_raise (wanted req.1) (failure 400 "invalid status")
  refuse_if (env.fails "failed to update runner") (failure 500 "failed to update runner")
  n ← gets (λ db. count (manageable id actor.organisation_id) db.runners)
  modify (λ db. record db {
    runners = update (manageable id actor.organisation_id) (set_status s req.0) db.runners;
  })
  refuse_if (eqb n 0) (failure 404 not_found)
  write_audit_event env actor.organisation_id actor.user_id "runner.updated" "runner" id "success"
      []
  pure (status 200 "updated"))

-- `handleRevokeRunner`.
unfoldable pub handle_revoke_runner : Env → Actor → String → Db → Reply × Db
unfolding respond ◌>>=◌
handle_revoke_runner env actor id = respond (do
  when (not (can_manage_runners actor))
      (write_denial env actor "runner.revoked" "runner" id management_required)
  refuse_if (env.fails "failed to revoke runner") (failure 500 "failed to revoke runner")
  n ← gets (λ db. count (manageable id actor.organisation_id) db.runners)
  modify (λ db. record db {
    runners =
        update (manageable id actor.organisation_id)
          (λ r. record r { status = revoked; revoked_at = some env.now }) db.runners;
  })
  refuse_if (eqb n 0) (failure 404 not_found)
  refuse_if (env.fails "credential revocation")
      (failure 500 "runner revoked but credential revocation failed")
  modify (revoke_current env id)
  write_audit_event env actor.organisation_id actor.user_id "runner.revoked" "runner" id "success"
      []
  pure (status 200 "revoked"))

-- `handleCreateManagedRunner`: a runner that has not registered yet.
unfoldable pub handle_create_managed_runner :
    Env → (String → String) → Actor → Option (String × String) → Db → Reply × Db
unfolding respond ◌>>=◌
handle_create_managed_runner env trim actor body = respond (do
  when (not (can_manage_runners actor))
      (write_denial env actor "runner.created" "runner" "" management_required)
  req ← or_raise body (failure 400 "name is required")
  refuse_if (trim req.0 == "") (failure 400 "name is required")
  refuse_if (env.fails "failed to create runner") (failure 500 "failed to create runner")
  modify (λ db. record db {
    runners =
        db.runners
        ++ record {
          id = env.fresh "runner";
          organisation_id = actor.organisation_id;
          name = req.0;
          runner_type = if req.1 == "" then "customer_managed" else req.1;
          status = runner_pending;
          version = none;
          hostname = none;
          platform = none;
          ip_address = none;
          last_seen_at = none;
          registered_at = none;
          revoked_at = none;
        }
          ∷ [];
  })
  write_audit_event env actor.organisation_id actor.user_id "runner.created" "runner"
      (env.fresh "runner") "success" (("name", text req.0) ∷ [])
  pure (created (env.fresh "runner") "pending"))
