-- ===== src/Runners/Auth.antt =====
-- authenticateRunnerCredential and authenticateBoundRunner (apps/api/auth.go).
pub mod Binding
use vpstools.Base.{
  ℕ, String, Bool, true, false, not, ◌&&◌, Option, none, some, ◌==◌, ltb, coalesce, if◌then◌else◌,
}
use vpstools.Base.Table.{find}
use vpstools.Store.Rows.{
  Db, Credential, Runner, RunnerStatus, runner_pending, active, paused, revoked,
}
use vpstools.Store.Action.{Action, Env, pure, raise, gets, or_raise, refuse_if, ◌>>=◌, ◌>>◌}

abbrev pub is_revoked : RunnerStatus → Bool
is_revoked revoked = true
is_revoked _ = false

abbrev pub is_null : Option ℕ → Bool
is_null none = true
is_null (some t) = false

-- `token_hash = ? AND revoked_at IS NULL AND expires_at > now`
abbrev pub accepts : Env → String → Credential → Bool
accepts env token c =
    c.token_hash == env.hash_token token && (is_null c.revoked_at && ltb env.now c.expires_at)

-- A runner of an organisation, by its id.
abbrev pub is_runner : String → String → Runner → Bool
is_runner id org r = r.id == id && r.organisation_id == org

-- The status check of a bound credential.
check_runner : Env → String → String → Action String (Unit {0})
check_runner env org runner = do
  refuse_if (env.fails "bind tenant") "bind tenant"
  refuse_if (env.fails "read runner status") "runner credential is no longer valid"
  found ← gets (λ db. find (is_runner runner org) db.runners)
  r ← or_raise found "runner credential is no longer valid"
  refuse_if (is_revoked r.status) "runner credential is no longer valid"

-- The organisation and the runner of a token; the runner is empty for a bootstrap credential.
unfoldable pub authenticate_runner_credential : Env → String → Action String (String × String)
unfolding check_runner ◌>>=◌
authenticate_runner_credential env token = do
  refuse_if (token == "") "runner registration credential required"
  refuse_if (env.fails "read credential") "invalid or expired runner registration credential"
  found ← gets (λ db. find (accepts env token) db.credentials)
  c ← or_raise found "invalid or expired runner registration credential"
  let runner = coalesce c.runner_id ""
  if runner == ""
      then pure (c.organisation_id, runner)
      else do check_runner env c.organisation_id runner; pure (c.organisation_id, runner)

unfoldable pub authenticate_bound_runner : Env → String → String → Action String String
unfolding authenticate_runner_credential ◌>>=◌
authenticate_bound_runner env token requested = do
  who ← authenticate_runner_credential env token
  refuse_if (who.1 == "")
      "this endpoint requires a runner-bound credential; register the runner first"
  refuse_if (requested == "") "runner_id is required"
  refuse_if (not (who.1 == requested)) "runner credential is bound to a different runner"
  pure who.0
