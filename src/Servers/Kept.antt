-- ===== src/Servers/Kept.antt =====
-- What an update keeps of the servers' SSH identities (apps/api/servers.go).
use vpstools.Base.{◌≡◌, ◌⊎◌, String, Bool, true, false, Option, none, some, List, eqb, Pairwise}
use vpstools.Base.Table.{update, count}
use vpstools.Store.Rows.{Db, Server}
use vpstools.Store.Action.{Action, Env}
use vpstools.Store.Keeps.{Keeps}
use vpstools.Store.Ends.{Ends}
use vpstools.Authz.{Actor}
use vpstools.Authz.Policy.{check_server_management}
use vpstools.Catalogue.Drafts.{valid_environment}
use vpstools.Runners.Reply.{Reply}
use vpstools.Servers.Identity.{is_credential_ref, is_fingerprint}
use vpstools.Servers.Manage.{UpdateRequest, is_manageable, set_server}

module _ (trim : String → String) where
  -- The column after the update: as it was where the request leaves the field out, cleared where it is
  -- blank, and else the given value, which is of the valid form.
  abbrev pub Field : (String → Bool) → Option String → Option String → Option String → Type 0
  Field valid none old new = new ≡ old
  Field valid (some v) old new =
      ((trim v ≡ "") × (new ≡ some "")) ⊎ ((valid (trim v) ≡ true) × (new ≡ some (trim v)))

-- What an update does to one server: nothing, unless it is the one that is named, in the actor's
-- organisation and not archived.
pub record Changed (trim : String → String) (actor : Actor) (id : String) (q : UpdateRequest)
    (s t : Server) : Type 0 where
  pub manageable : is_manageable id actor.organisation_id s ≡ true
  pub same_id : t.id ≡ s.id
  pub same_organisation : t.organisation_id ≡ s.organisation_id
  pub same_status : t.status ≡ s.status
  pub credential :
      Field trim is_credential_ref q.ssh_credential_ref s.ssh_credential_ref t.ssh_credential_ref
  pub fingerprint :
      Field trim is_fingerprint q.ssh_host_key_fingerprint s.ssh_host_key_fingerprint
        t.ssh_host_key_fingerprint

abbrev pub Kept : (String → String) → Actor → String → UpdateRequest → Server → Server → Type 0
Kept trim actor id q s t = (t ≡ s) ⊎ Changed trim actor id q s t

pub record Updated (trim : String → String) (actor : Actor) (id : String) (q : UpdateRequest)
    (before after : Db) : Type 0 where
  pub permitted : (check_server_management actor).allowed ≡ true
  pub environment : valid_environment q.environment ≡ true
  pub found : eqb (count (is_manageable id actor.organisation_id) before.servers) 0 ≡ false
  pub servers : Pairwise (Kept trim actor id q) before.servers after.servers

module _ (servers : List Server) where
  abbrev HasServers : Db → Type 0
  HasServers db = db.servers ≡ servers

module _ (env : Env) (trim : String → String) (actor : Actor) (id : String) (q : UpdateRequest)
    (before : Db) where
  abbrev moved : List Server
  moved = update (is_manageable id actor.organisation_id) (set_server trim q) before.servers
