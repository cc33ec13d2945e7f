-- ===== src/Servers/Manage.antt =====
-- handleAddServer, handleUpdateServer and handleArchiveServer (apps/api/servers.go).
use Prim.Native.String.{◌++◌ as text_append}
use vpstools.Base.{
  String, Bool, not, ◌&&◌, ◌||◌, Option, none, some, List, [], ◌∷◌, ◌++◌, ◌==◌, eqb, null_if_empty,
  if◌then◌else◌,
}
use vpstools.Base.Int.{ℤ, pos, is_zero}
use vpstools.Base.Table.{update, count, exists, select}
use vpstools.Store.Rows.{Db, Server, ServerTag, text}
use vpstools.Store.Action.{
  Action, Env, pure, raise, gets, or_raise, modify, refuse_if, when, transaction, ◌>>=◌, ◌>>◌,
}
use vpstools.Authz.{Actor}
use vpstools.Authz.Policy.{check_server_management}
use vpstools.Audit.{write_audit_event}
use vpstools.Catalogue.Drafts.{valid_environment}
use vpstools.Runners.Denial.{write_denial}
use vpstools.Runners.Reply.{Reply, failure, status, server_created, respond}
use vpstools.Servers.Identity.{validate_ssh_identity, deref_or_empty, coalesce_field}

abbrev Tags : Type 0
Tags = List (String × String)

abbrev or_default_port : ℤ → ℤ
or_default_port p = if is_zero p then pos 22 else p

unfoldable pub or_bad_identity : Option String → Action Reply (Unit {0})
or_bad_identity none = pure tt
or_bad_identity (some e) = raise (failure 400 e)

-- The primary key of server_tags.
abbrev has_key : String → String → String → ServerTag → Bool
has_key org id key t = t.organisation_id == org && (t.server_id == id && t.key == key)

pub record AddRequest : Type 0 where
  pub name : String
  pub hostname : String
  pub public_ip : String
  pub private_ip : String
  pub ssh_port : ℤ
  pub ssh_username : String
  pub ssh_credential_ref : String
  pub ssh_host_key_fingerprint : String
  pub environment : String
  pub provider : String
  pub tags : Tags

abbrev pub server_id_of : Env → String
server_id_of env = text_append "srv_" (env.fresh "server")

abbrev new_server : Env → Actor → AddRequest → Server
new_server env actor q = record {
  id = server_id_of env;
  organisation_id = actor.organisation_id;
  name = q.name;
  environment = if q.environment == "" then "development" else q.environment;
  status = "pending";
  hostname = null_if_empty q.hostname;
  public_ip = null_if_empty q.public_ip;
  private_ip = null_if_empty q.private_ip;
  ssh_port = or_default_port q.ssh_port;
  ssh_username = null_if_empty q.ssh_username;
  ssh_credential_ref = null_if_empty q.ssh_credential_ref;
  ssh_host_key_fingerprint = null_if_empty q.ssh_host_key_fingerprint;
  provider = null_if_empty q.provider;
  os = none;
  last_seen_at = none;
  last_check_at = none;
}

-- The errors of these statements are not looked at: a key that is there already is passed over.
unfoldable pub add_tags : Env → String → String → Tags → Db → Db
add_tags env org id [] db = db
add_tags env org id ((key, value) ∷ rest) db = add_tags env org id rest (
    if key == "" || (env.fails "insert tag" || exists (has_key org id key) db.tags)
    then db
    else record db {
      tags =
          db.tags
          ++ record { organisation_id = org; server_id = id; key = key; value = value } ∷ [];
    })

-- The primary key and UNIQUE(organisation_id, name).
abbrev taken : Env → Actor → AddRequest → Server → Bool
taken env actor q s =
    s.id == server_id_of env || (s.organisation_id == actor.organisation_id && s.name == q.name)

unfoldable pub add_server : Env → (String → String) → Actor → Option AddRequest → Action Reply Reply
add_server env trim actor body = do
  when (not (check_server_management actor).allowed)
      (write_denial env actor "server.created" "server" "" (check_server_management actor))
  q ← or_raise body (failure 400 "invalid request body")
  refuse_if (q.name == "") (failure 400 "name is required")
  or_bad_identity (validate_ssh_identity trim q.ssh_credential_ref q.ssh_host_key_fingerprint)
  known ← gets (λ db. exists (taken env actor q) db.servers)
  refuse_if (env.fails "failed to create server" || known) (failure 500 "failed to create server")
  modify (λ db. record db { servers = db.servers ++ new_server env actor q ∷ [] })
  modify (add_tags env actor.organisation_id (server_id_of env) q.tags)
  write_audit_event env actor.organisation_id actor.user_id "server.created" "server"
      (server_id_of env) "success"
      (("name", text q.name) ∷ ("environment", text (new_server env actor q).environment) ∷ [])
  pure (server_created (server_id_of env))

unfoldable pub handle_add_server :
    Env → (String → String) → Actor → Option AddRequest → Db → Reply × Db
handle_add_server env trim actor body = respond (add_server env trim actor body)

-- A field that is left out is `none` only where the code can tell.
pub record UpdateRequest : Type 0 where
  pub name : String
  pub hostname : String
  pub public_ip : String
  pub private_ip : String
  pub ssh_port : ℤ
  pub ssh_username : String
  pub ssh_credential_ref : Option String
  pub ssh_host_key_fingerprint : Option String
  pub environment : String
  pub provider : String
  pub tags : Tags

-- `id = ? AND organisation_id = ? AND status != 'archived'`
abbrev pub is_manageable : String → String → Server → Bool
is_manageable id org s = s.id == id && (s.organisation_id == org && not (s.status == "archived"))

abbrev pub set_server : (String → String) → UpdateRequest → Server → Server
set_server trim q s = record s {
  name = q.name;
  hostname = null_if_empty q.hostname;
  public_ip = null_if_empty q.public_ip;
  private_ip = null_if_empty q.private_ip;
  ssh_port = or_default_port q.ssh_port;
  ssh_username = null_if_empty q.ssh_username;
  ssh_credential_ref = coalesce_field trim q.ssh_credential_ref s.ssh_credential_ref;
  ssh_host_key_fingerprint =
      coalesce_field trim q.ssh_host_key_fingerprint s.ssh_host_key_fingerprint;
  environment = q.environment;
  provider = null_if_empty q.provider;
}

abbrev is_other_tag : String → String → ServerTag → Bool
is_other_tag id org t = not (t.server_id == id && t.organisation_id == org)

unfoldable pub replace_tags : Env → String → String → Tags → Action Reply (Unit {0})
replace_tags env org id [] = pure tt
replace_tags env org id ((key, value) ∷ rest) = do
  known ← gets (λ db. exists (has_key org id key) db.tags)
  refuse_if (not (key == "") && (env.fails "failed to update tags" || known))
      (failure 500 "failed to update tags")
  when (not (key == "")) (
      modify (λ db. record db {
        tags =
            db.tags
            ++ record { organisation_id = org; server_id = id; key = key; value = value } ∷ [];
      }))
  replace_tags env org id rest

-- Another server of the organisation has the name.
abbrev takes_name : String → String → String → Server → Bool
takes_name id org name s = not (s.id == id) && (s.organisation_id == org && s.name == name)

unfoldable pub update_server_tx :
    Env → (String → String) → Actor → String → UpdateRequest → Action Reply (Unit {0})
unfolding replace_tags
update_server_tx env trim actor id q = do
  n ← gets (λ db. count (is_manageable id actor.organisation_id) db.servers)
  known ← gets (λ db. exists (takes_name id actor.organisation_id q.name) db.servers)
  refuse_if (env.fails "failed to update server" || (not (eqb n 0) && known))
      (failure 500 "failed to update server")
  modify (λ db. record db {
    servers = update (is_manageable id actor.organisation_id) (set_server trim q) db.servers;
  })
  refuse_if (eqb n 0) (failure 404 "server not found")
  refuse_if (env.fails "delete tags") (failure 500 "failed to update tags")
  modify (λ db. record db { tags = select (is_other_tag id actor.organisation_id) db.tags })
  replace_tags env actor.organisation_id id q.tags
  refuse_if (env.fails "failed to commit update") (failure 500 "failed to commit update")

unfoldable pub update_server :
    Env → (String → String) → Actor → String → Option UpdateRequest → Action Reply Reply
update_server env trim actor id body = do
  when (not (check_server_management actor).allowed)
      (write_denial env actor "server.updated" "server" id (check_server_management actor))
  q ← or_raise body (failure 400 "invalid request body")
  refuse_if (trim q.name == "") (failure 400 "name is required")
  refuse_if (not (valid_environment q.environment)) (failure 400 "invalid environment")
  or_bad_identity (
      validate_ssh_identity trim (deref_or_empty q.ssh_credential_ref)
        (deref_or_empty q.ssh_host_key_fingerprint))
  refuse_if (env.fails "failed to start update") (failure 500 "failed to start update")
  transaction (update_server_tx env trim actor id q)
  write_audit_event env actor.organisation_id actor.user_id "server.updated" "server" id "success"
      []
  pure (status 200 "updated")

unfoldable pub handle_update_server :
    Env → (String → String) → Actor → String → Option UpdateRequest → Db → Reply × Db
handle_update_server env trim actor id body = respond (update_server env trim actor id body)

unfoldable pub handle_archive_server : Env → Actor → String → Db → Reply × Db
unfolding respond ◌>>=◌
handle_archive_server env actor id = respond (do
  when (not (check_server_management actor).allowed)
      (write_denial env actor "server.archived" "server" id (check_server_management actor))
  refuse_if (env.fails "failed to archive server") (failure 500 "failed to archive server")
  n ← gets (λ db. count (is_manageable id actor.organisation_id) db.servers)
  modify (λ db. record db {
    servers =
        update (is_manageable id actor.organisation_id) (λ s. record s { status = "archived" })
          db.servers;
  })
  refuse_if (eqb n 0) (failure 404 "server not found")
  write_audit_event env actor.organisation_id actor.user_id "server.archived" "server" id "success"
      []
  pure (status 200 "archived"))
