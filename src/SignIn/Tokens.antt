-- ===== src/SignIn/Tokens.antt =====
-- handleCreateAPIToken and handleRevokeAPIToken (apps/api/auth.go). The prefix that the list shows is not
-- kept. A request without an actor is answered by withAuth.
use Prim.Native.String.{◌++◌ as text_append, len}
use vpstools.Base.{
  ℕ, ◌+◌, String, Bool, not, ◌&&◌, ◌||◌, Option, none, some, [], ◌∷◌, ◌++◌, ◌==◌, eqb, ltb,
  if◌then◌else◌,
}
use vpstools.Base.Int.{ℤ, pos, negsuc}
use vpstools.Base.Table.{update, count, exists}
use vpstools.Store.Users.{ApiToken}
use vpstools.Store.Rows.{Db, number, text}
use vpstools.Store.Action.{Action, Env, pure, gets, or_raise, modify, refuse_if, ◌>>=◌, ◌>>◌}
use vpstools.Authz.{Actor, is_privileged}
use vpstools.Authz.Risk.{contains}
use vpstools.Audit.{write_audit_event}
use vpstools.Runners.Auth.{is_null}
use vpstools.Runners.Reply.{Reply, failure, status, token_created, respond}
use vpstools.Approvals.Decide.{is_member}
use vpstools.SignIn.Resolve.{is_active_user}

pub record TokenRequest : Type 0 where
  pub user_id : String
  pub name : String
  pub expires_in : ℤ

abbrev not_allowed : Reply
not_allowed = failure 403 "API token management requires a privileged role"

-- Thirty days where it is 0, and none outside sixty seconds and ninety days.
unfoldable pub lifetime : ℤ → Option ℕ
lifetime (negsuc n) = none
lifetime (pos n) =
    if eqb n 0 then some 2592000 else if ltb n 60 || ltb 7776000 n then none else some n

-- An active user with an active membership of the organisation.
unfoldable pub is_provisioned : String → String → Db → Bool
is_provisioned org user db =
    exists (is_active_user user) db.users && exists (is_member user org) db.memberships

abbrev token_id_of : Env → String
token_id_of env = text_append "pat_" (env.fresh "token id")

abbrev secret_of : Env → String
secret_of env = env.fresh "token"

-- The primary key and UNIQUE(token_hash).
abbrev clashes : Env → ApiToken → Bool
clashes env t = t.id == token_id_of env || t.token_hash == env.hash_token (secret_of env)

-- The token may be for any user of the organisation, whatever the roles of the two are.
unfoldable pub create_api_token :
    Env → (String → String) → Actor → Option TokenRequest → Action Reply Reply
create_api_token env trim actor body = do
  refuse_if (not (is_privileged actor)) not_allowed
  q ← or_raise body (failure 400 "invalid request body")
  let user = if trim q.user_id == "" then actor.user_id else q.user_id
  let name = if q.name == "" then "cli-token" else q.name
  refuse_if (ltb 100 (len name)) (failure 400 "name must be 100 characters or fewer")
  seconds ←
      or_raise (lifetime q.expires_in)
        (failure 400 "expires_in must be between 60 seconds and 90 days")
  provisioned ← gets (is_provisioned actor.organisation_id user)
  refuse_if (env.fails "find user" || not provisioned)
      (failure 400 "user is not an active member of your organisation")
  refuse_if (secret_of env == "") (failure 500 "failed to generate API token")
  known ← gets (λ db. exists (clashes env) db.api_tokens)
  refuse_if (env.fails "failed to create API token" || known)
      (failure 500 "failed to create API token")
  modify (λ db. record db {
    api_tokens =
        db.api_tokens
        ++ record {
          id = token_id_of env;
          organisation_id = actor.organisation_id;
          user_id = user;
          name = name;
          token_hash = env.hash_token (secret_of env);
          expires_at = env.now + seconds;
          revoked_at = none;
        }
          ∷ [];
  })
  write_audit_event env actor.organisation_id actor.user_id "auth.token.created" "api_token"
      (token_id_of env) "success"
      (("user_id", text user)
        ∷ ("name", text name)
        ∷ ("expires_at", number (pos (env.now + seconds)))
        ∷ [])
  pure (token_created (token_id_of env) (secret_of env) user (env.now + seconds))

unfoldable pub handle_create_api_token :
    Env → (String → String) → Actor → Option TokenRequest → Db → Reply × Db
handle_create_api_token env trim actor body = respond (create_api_token env trim actor body)

-- `id = ? AND organisation_id = ? AND revoked_at IS NULL`
abbrev pub is_revocable : String → String → ApiToken → Bool
is_revocable id org t = t.id == id && (t.organisation_id == org && is_null t.revoked_at)

unfoldable pub handle_revoke_api_token : Env → Actor → String → Db → Reply × Db
unfolding respond ◌>>=◌ contains
handle_revoke_api_token env actor id = respond (do
  refuse_if (not (is_privileged actor)) not_allowed
  refuse_if (id == "" || contains id "/") (failure 400 "invalid token id")
  refuse_if (env.fails "failed to revoke API token") (failure 500 "failed to revoke API token")
  n ← gets (λ db. count (is_revocable id actor.organisation_id) db.api_tokens)
  modify (λ db. record db {
    api_tokens =
        update (is_revocable id actor.organisation_id) (λ t. record t { revoked_at = some env.now })
          db.api_tokens;
  })
  refuse_if (eqb n 0) (failure 404 "active API token not found")
  write_audit_event env actor.organisation_id actor.user_id "auth.token.revoked" "api_token" id
      "success" []
  pure (status 200 "revoked"))
