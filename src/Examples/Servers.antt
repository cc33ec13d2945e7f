-- ===== src/Examples/Servers.antt =====
-- Servers at concrete inputs.
use vpstools.Base.{String, true, false, map, ◌≡◌, refl, some, none, [], ◌∷◌}
use vpstools.Base.Int.{pos}
use vpstools.Base.Table.{find, select, update}
use vpstools.Store.Rows.{Db}
use vpstools.Store.Action.{◌>>=◌}
use vpstools.Authz.{has_role, is_privileged, is_senior}
use vpstools.Authz.Policy.{check_server_check}
use vpstools.Audit.{write_audit_event, latest_audit_hash}
use vpstools.Runbooks.Values.{every}
use vpstools.Runners.Reply.{status}
use vpstools.Servers.Identity.{is_fingerprint}
use vpstools.Servers.Manage.{UpdateRequest}
use vpstools.Servers.Check.{check_server}
use vpstools.Examples.World.{env, owner, web, db}

abbrev trim : String → String
trim s = s

abbrev pin : String
pin = "SHA256:0123456789abcdefghijABCDEFGHIJ0123456789+/a"

abbrev pinned : Db
pinned = record db { servers = record web { ssh_host_key_fingerprint = some "SHA256:old" } ∷ [] }

-- The fingerprint is left out, the credential is given.
abbrev change : UpdateRequest
change = record {
  name = "web-1";
  hostname = "web";
  public_ip = "";
  private_ip = "";
  ssh_port = pos 0;
  ssh_username = "root";
  ssh_credential_ref = some "deploy-key";
  ssh_host_key_fingerprint = none;
  environment = "staging";
  provider = "";
  tags = ("role", "app") ∷ [];
}

fingerprints : (is_fingerprint pin ≡ true) × (is_fingerprint "SHA256:short" ≡ false)
unfolding is_fingerprint every
fingerprints = (refl, refl)

abbrev removed : Db
removed = record db { servers = record web { status = "archived" } ∷ [] }

-- A check brings an archived server back.
revived : map (λ s. s.status) (check_server env owner "srv_1" removed).1.servers ≡ "active" ∷ []
unfolding check_server check_server_check is_privileged has_role is_senior write_audit_event
    latest_audit_hash find select update ◌>>=◌
revived = refl
