-- ===== src/Runners/Credentials.antt =====
-- The credentials of runners (apps/api/runners.go): bootstrap tokens, bound tokens and rotation.
-- A request body that does not decode is `none`.
use package.text.Mathlib.Text.{find?}
use vpstools.Base.{
  ℕ, ◌+◌, String, Bool, not, ◌&&◌, ◌||◌, Option, none, some, [], ◌∷◌, ◌++◌, ◌==◌, holds,
  null_if_empty, if◌then◌else◌,
}
use vpstools.Base.Int.{pos}
use vpstools.Base.Table.{find, update}
use vpstools.Authz.{Actor, Decision, deny, can_manage_runners}
use vpstools.Store.Rows.{Db, Credential, number, text}
use vpstools.Store.Action.{
  Action, Env, pure, gets, or_raise, modify, refuse_if, on_error, when, ◌>>=◌, ◌>>◌,
}
use vpstools.Audit.{write_audit_event}
use vpstools.Runners.Reply.{Reply, failure, token, respond}
use vpstools.Runners.Denial.{write_denial}
use vpstools.Runners.Auth.{is_null, is_revoked, is_runner}

abbrev pub not_found : String
not_found = "runner not found"

abbrev pub management_required : Decision
management_required =
    deny "runner_management_required" "Runner management requires a privileged role."

-- `WHERE runner_id = ? AND revoked_at IS NULL`
abbrev pub current_for : String → Credential → Bool
current_for runner c = holds c.runner_id runner && is_null c.revoked_at

abbrev pub revoke_current : Env → String → Db → Db
revoke_current env runner db = record db {
  credentials =
      update (current_for runner) (λ c. record c { revoked_at = some env.now }) db.credentials;
}

-- registrationCredentialTTL is an hour and boundCredentialTTL thirty days, in seconds.
abbrev pub credential_ttl : String → ℕ
credential_ttl runner = if runner == "" then 3600 else 2592000

-- The checks and the revocation that come first when a runner is named.
retire : Env → String → String → Action String (Unit {0})
retire env org runner = do
  refuse_if (env.fails "runner not found") not_found
  found ← gets (λ db. find (is_runner runner org) db.runners)
  r ← or_raise found not_found
  refuse_if (is_revoked r.status) "runner is revoked"
  refuse_if (env.fails "failed to revoke previous runner credentials")
      "failed to revoke previous runner credentials"
  modify (revoke_current env runner)

-- `createRunnerCredential`: the new token.
unfoldable pub create_runner_credential : Env → String → String → String → Action String String
unfolding retire ◌>>=◌
create_runner_credential env org actor runner = do
  when (not (runner == "")) (retire env org runner)
  let new_token = env.fresh "token"
  refuse_if (new_token == "") "failed to generate registration token"
  let ttl = credential_ttl runner
  refuse_if (env.fails "failed to create registration token") "failed to create registration token"
  modify (λ db. record db {
    credentials =
        db.credentials
        ++ record {
          id = env.fresh "credential";
          organisation_id = org;
          runner_id = null_if_empty runner;
          token_hash = env.hash_token new_token;
          expires_at = env.now + ttl;
          revoked_at = none;
        }
          ∷ [];
  })
  write_audit_event env org actor "runner.credential.rotated" "runner" runner "success"
      (("expires_in", number (pos ttl)) ∷ [])
  pure new_token

-- `handleCreateRegistrationToken`: the body is optional, and names a runner or none.
unfoldable pub handle_create_registration_token : Env → Actor → Option String → Db → Reply × Db
unfolding respond ◌>>=◌
handle_create_registration_token env actor body = respond (do
  when (not (can_manage_runners actor)) (
      write_denial env actor "runner.credential.rotated" "runner" "" (
        deny "runner_management_required"
          "Creating runner credentials requires a privileged role."))
  runner ← or_raise body (failure 400 "invalid request body")
  t ←
      on_error (failure 400)
        (create_runner_credential env actor.organisation_id actor.user_id runner)
  pure (token t "3600"))

-- `handleRotateRunnerToken`; the id of the path must not hold a slash.
unfoldable pub handle_rotate_runner_token : Env → Actor → String → Db → Reply × Db
unfolding respond ◌>>=◌
handle_rotate_runner_token env actor runner = respond (do
  when (not (can_manage_runners actor)) (
      write_denial env actor "runner.credential.rotated" "runner" runner (
        deny "runner_management_required"
          "Rotating runner credentials requires a privileged role."))
  refuse_if (runner == "" || not (is_null (find? runner "/"))) (failure 400 "invalid runner id")
  t ←
      on_error (failure 400)
        (create_runner_credential env actor.organisation_id actor.user_id runner)
  pure (token t "3600"))
