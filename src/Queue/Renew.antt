-- ===== src/Queue/Renew.antt =====
-- handleRenewLease (apps/api/jobs.go).
pub mod Effect
use vpstools.Base.{
  ℕ, ◌+◌, String, Bool, true, false, ◌&&◌, ◌||◌, Option, none, some, ◌==◌, eqb, holds,
  if◌then◌else◌,
}
use vpstools.Base.Table.{update, count}
use vpstools.Store.Status.{is_running}
use vpstools.Store.Rows.{Db, Target}
use vpstools.Store.Action.{
  Action, Env, pure, gets, or_raise, modify, refuse_if, on_error, ◌>>=◌, ◌>>◌,
}
use vpstools.Runners.Reply.{Reply, failure, status, respond}
use vpstools.Runners.Auth.{authenticate_bound_runner}

-- The body of a renewal; every field must be there.
pub record LeaseRequest : Type 0 where
  pub execution_id : String
  pub target_id : String
  pub runner_id : String
  pub lease_id : String

abbrev pub is_incomplete : LeaseRequest → Bool
is_incomplete q =
    q.execution_id == "" || (q.target_id == "" || (q.runner_id == "" || q.lease_id == ""))

-- `WHERE id = ? AND execution_id = ? AND runner_id = ? AND lease_id = ? AND status = 'running'`
abbrev pub is_held : LeaseRequest → Target → Bool
is_held q t =
    t.id == q.target_id
    && (t.execution_id == q.execution_id
        && (holds t.runner_id q.runner_id && (holds t.lease_id q.lease_id && is_running t.status)))

-- After the body is decoded.
unfoldable pub renew_for : Env → String → LeaseRequest → Action Reply Reply
renew_for env bearer q = do
  refuse_if (is_incomplete q) (failure 400 "invalid lease renewal body")
  org ← on_error (failure 401) (authenticate_bound_runner env bearer q.runner_id)
  refuse_if (env.fails "tenant database context unavailable")
      (failure 500 "tenant database context unavailable")
  refuse_if (env.fails "failed to renew lease") (failure 500 "failed to renew lease")
  n ← gets (λ db. count (is_held q) db.targets)
  modify (λ db. record db {
    targets =
        update (is_held q) (λ t. record t { lease_expires_at = some (env.now + 300) }) db.targets;
  })
  refuse_if (eqb n 0) (failure 409 "lease is no longer active")
  pure (status 200 "renewed")

unfoldable pub renew_lease : Env → String → Option LeaseRequest → Action Reply Reply
renew_lease env bearer body = do
  q ← or_raise body (failure 400 "invalid lease renewal body")
  renew_for env bearer q

unfoldable pub handle_renew_lease : Env → String → Option LeaseRequest → Db → Reply × Db
handle_renew_lease env bearer body = respond (renew_lease env bearer body)
