-- ===== src/Servers/Check.antt =====
-- handleCheckServer (apps/api/servers.go): no connection to the server is made.
use vpstools.Base.{
  String, Bool, true, not, ◌&&◌, Option, none, some, [], ◌==◌, coalesce, if◌then◌else◌,
}
use vpstools.Base.Table.{find, update}
use vpstools.Store.Rows.{Db, Server, Os}
use vpstools.Store.Action.{Action, Env, pure, gets, or_raise, modify, refuse_if, when, ◌>>=◌, ◌>>◌}
use vpstools.Authz.{Actor}
use vpstools.Authz.Policy.{check_server_check}
use vpstools.Audit.{write_audit_event}
use vpstools.Executions.Targets.{in_org}
use vpstools.Runners.Denial.{write_denial}
use vpstools.Runners.Reply.{Reply, failure, server_checked, respond}

abbrev checked : Env → Server → Server
checked env s = record s {
  status = "active";
  last_check_at = some env.now;
  last_seen_at = some env.now;
}

-- What is stored of a server about which nothing is known.
abbrev assumed : Os
assumed = record { name = "linux"; version = "unknown"; kernel = "unknown"; architecture = "amd64" }

abbrev is_unknown : Option Os → Bool
is_unknown none = true
is_unknown (some o) = o.name == ""

abbrev os_of : Option Os → Os
os_of none = assumed
os_of (some o) = if is_unknown (some o) then assumed else o

abbrev known_os : Option Server → Option Os
known_os none = none
known_os (some s) = s.os

-- The error of the second update is not looked at.
unfoldable pub check_server : Env → Actor → String → Action Reply Reply
check_server env actor id = do
  when (not (check_server_check actor).allowed)
      (write_denial env actor "server.checked" "server" id (check_server_check actor))
  refuse_if (env.fails "find server") (failure 404 "server not found")
  found ← gets (λ db. find (in_org id actor.organisation_id) db.servers)
  s ← or_raise found (failure 404 "server not found")
  refuse_if (env.fails "failed to update server check")
      (failure 500 "failed to update server check")
  modify (λ db. record db { servers = update (λ x. x.id == id) (checked env) db.servers })
  stored ← gets (λ db. if env.fails "read os" then none else find (λ x. x.id == id) db.servers)
  let os = os_of (known_os stored)
  when (is_unknown (known_os stored) && not (env.fails "store os")) (
      modify (λ db. record db {
        servers = update (λ x. x.id == id) (λ x. record x { os = some assumed }) db.servers;
      }))
  write_audit_event env actor.organisation_id actor.user_id "server.checked" "server" id "success"
      []
  pure (server_checked id (coalesce s.hostname (coalesce s.public_ip "")) s.ssh_port os.name)

unfoldable pub handle_check_server : Env → Actor → String → Db → Reply × Db
handle_check_server env actor id = respond (check_server env actor id)
