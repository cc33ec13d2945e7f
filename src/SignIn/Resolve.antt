-- ===== src/SignIn/Resolve.antt =====
-- withAuth, resolveAPITokenActor (apps/api/auth.go), resolveExternalActor (apps/api/auth_external.go) and
-- ResolveDevUser (packages/authz/authz.go). The limit of the body and the binding of the connection are
-- left out but for the failure of the latter; times of the last use are not kept.
use Prim.Native.String.{◌++◌ as text_append}
use vpstools.Base.{
  String, Bool, true, not, ◌&&◌, ◌||◌, Option, none, some, ◌==◌, ltb, holds, if◌then◌else◌,
}
use vpstools.Base.Table.{find, update, exists}
use vpstools.Store.Users.{User, ApiToken}
use vpstools.Store.Catalogue.{Membership}
use vpstools.Store.Rows.{Db}
use vpstools.Store.Action.{
  Action, Env, pure, gets, or_raise, modify, refuse_if, on_error, ◌>>=◌, ◌>>◌,
}
use vpstools.Authz.{Actor}
use vpstools.Runners.Auth.{is_null}
use vpstools.Runners.Reply.{Reply, failure}
use vpstools.Approvals.Decide.{is_member}
use vpstools.SignIn.Settings.{Words, Settings, dev_auth_enabled, secure_string_equal, bearer_token}

-- `token_hash = ? AND revoked_at IS NULL AND expires_at > now`
abbrev pub accepts_token : Env → String → ApiToken → Bool
accepts_token env token t =
    t.token_hash == env.hash_token token && (is_null t.revoked_at && ltb env.now t.expires_at)

abbrev pub is_active_user : String → User → Bool
is_active_user id u = u.id == id && u.status == "active"

abbrev pub is_active_member : String → Membership → Bool
is_active_member user m = m.user_id == user && m.status == "active"

abbrev pub actor_of : User → Membership → Actor
actor_of u m = record {
  user_id = u.id;
  email = u.email;
  display_name = u.display_name;
  organisation_id = m.organisation_id;
  role = m.role;
}

abbrev pub joined : Option User → Option Membership → Option Actor
joined (some u) (some m) = some (actor_of u m)
joined _ _ = none

abbrev pub token_user : Db → Option ApiToken → Option Actor
token_user db none = none
token_user db (some t) =
    joined (find (is_active_user t.user_id) db.users)
      (find (is_member t.user_id t.organisation_id) db.memberships)

unfoldable pub find_token_actor : Env → String → Db → Option Actor
find_token_actor env token db = token_user db (find (accepts_token env token) db.api_tokens)

unfoldable pub resolve_api_token_actor : Env → String → Action String Actor
resolve_api_token_actor env token = do
  refuse_if (token == "") "API token is empty"
  refuse_if (env.fails "read API token") "API token is invalid or expired"
  found ← gets (find_token_actor env token)
  or_raise found "API token is invalid or expired"

abbrev pub user_member : Db → Option User → Option Actor
user_member db none = none
user_member db (some u) = joined (some u) (find (is_active_member u.id) db.memberships)

-- `email LIKE 'user%'`, of a user with a membership.
abbrev pub is_prefixed : Words → String → Db → User → Bool
is_prefixed w user db u =
    w.like u.email (text_append user "%")
    && (u.status == "active" && exists (is_active_member u.id) db.memberships)

abbrev pub or_else : Option Actor → Option Actor → Option Actor
or_else (some a) b = some a
or_else none b = b

-- By the id, and else by the start of the email.
unfoldable pub find_dev_actor : Env → Words → String → Db → Option Actor
find_dev_actor env w user db =
    or_else
      (if env.fails "read user" then none else user_member db (find (is_active_user user) db.users))
      (if env.fails "read user by email"
        then none
        else user_member db (find (is_prefixed w user db) db.users))

unfoldable pub resolve_dev_user : Env → Words → String → Action String Actor
resolve_dev_user env w user = do
  refuse_if (user == "") "no user specified"
  found ← gets (find_dev_actor env w user)
  or_raise found "user not found or inactive"

abbrev has_subject : String → User → Bool
has_subject subject u = holds u.external_subject subject && u.status == "active"

abbrev is_blank : Option String → Bool
is_blank none = true
is_blank (some s) = s == ""

abbrev awaits_subject : String → User → Bool
awaits_subject email u = u.email == email && (u.status == "active" && is_blank u.external_subject)

unfoldable pub bind_subject : Env → String → String → Action String String
bind_subject env subject email = do
  refuse_if (env.fails "read user by email") "OIDC user is not provisioned"
  found ← gets (λ db. find (awaits_subject email) db.users)
  u ← or_raise found "OIDC user is not provisioned"
  refuse_if (env.fails "failed to bind OIDC identity") "failed to bind OIDC identity"
  modify (λ db. record db {
    users = update (λ x. x.id == u.id) (λ x. record x { external_subject = some subject }) db.users;
  })
  pure u.id

unfoldable pub known_subject : Env → String → String → Option User → Action String String
known_subject env subject email none = bind_subject env subject email
known_subject env subject email (some u) = pure u.id

unfoldable pub resolve_external_actor : Env → Words → String → String → Action String Actor
resolve_external_actor env w header_subject header_email = do
  let subject = w.trim header_subject
  let email = w.lower (w.trim header_email)
  refuse_if (subject == "" || email == "") "verified OIDC identity is incomplete"
  found ←
      gets (λ db.
        if env.fails "read user by subject" then none else find (has_subject subject) db.users)
  user ← known_subject env subject email found
  resolve_dev_user env w user

-- The headers of a request.
pub record Headers : Type 0 where
  pub authorization : String
  pub internal_secret : String
  pub oidc_subject : String
  pub oidc_email : String
  pub user : String

unfoldable pub bind_tenant : Env → Actor → Action Reply Actor
bind_tenant env actor = do
  refuse_if (env.fails "bind tenant") (failure 500 "tenant database context unavailable")
  pure actor

unfoldable pub token_auth : Env → Words → Headers → Action Reply Actor
unfolding bind_tenant
token_auth env w h = do
  actor ←
      on_error (λ e. failure 401 "invalid or expired API token")
        (resolve_api_token_actor env (bearer_token w h.authorization))
  bind_tenant env actor

unfoldable pub proxy_auth : Env → Words → Headers → Action Reply Actor
unfolding bind_tenant
proxy_auth env w h = do
  actor ←
      on_error (λ e. failure 401 "OIDC identity is not provisioned")
        (resolve_external_actor env w h.oidc_subject h.oidc_email)
  bind_tenant env actor

unfoldable pub header_auth : Env → Words → Settings → Headers → Action Reply Actor
unfolding bind_tenant
header_auth env w s h = do
  refuse_if (not (dev_auth_enabled w s)) (failure 401 "authentication required")
  refuse_if (w.trim h.user == "") (failure 401 "authentication required")
  actor ←
      on_error (λ e. failure 401 (text_append "authentication failed: " e))
        (resolve_dev_user env w h.user)
  bind_tenant env actor

-- `withAuth` up to the handler: the actor that the handler is run for.
unfoldable pub with_auth : Env → Words → Settings → Headers → Action Reply Actor
unfolding token_auth proxy_auth header_auth
with_auth env w s h =
    if not (bearer_token w h.authorization == "")
    then token_auth env w h
    else if not (s.shared_secret == "") && secure_string_equal h.internal_secret s.shared_secret
    then proxy_auth env w h
    else header_auth env w s h
