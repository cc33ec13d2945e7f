-- ===== src/Executions/Targets.antt =====
-- resolveTargets, targetEnvironment and snapshotTargets (apps/api/executions.go). Rows of a query come
-- in the order of the table.
use Prim.Native.String.{len, slice}
use text.Mathlib.Text.{starts_with, find?}
use vpstools.Base.{
  suc, String, Bool, true, false, not, ◌&&◌, ◌||◌, Option, none, some, List, [], ◌∷◌, map, ◌==◌,
  if◌then◌else◌,
}
use vpstools.Base.Table.{find, select, exists}
use vpstools.Store.Rows.{Db, Server}
use vpstools.Store.Action.{Env}

abbrev pub in_org : String → String → Server → Bool
in_org id org s = s.id == id && s.organisation_id == org

-- `(id = ? OR name = ?) AND organisation_id = ? AND status != 'archived'`
abbrev by_id_or_name : String → String → Server → Bool
by_id_or_name word org s =
    (s.id == word || s.name == word) && (s.organisation_id == org && not (s.status == "archived"))

abbrev by_name : String → String → Server → Bool
by_name word org s = s.name == word && (s.organisation_id == org && not (s.status == "archived"))

id_of : Option Server → List String
id_of none = []
id_of (some s) = s.id ∷ []

tagged : String → String → String → Db → List String
tagged key value org db =
    map (λ t. t.server_id)
      (select (λ t. t.organisation_id == org && (t.key == key && t.value == value)) db.tags)

-- strings.SplitN(text, "=", 2) with two parts.
split_pair : String → Option (String × String)
split_pair s = elim (find? s "=") [
  | none ↦ none
  | some at ↦ some (slice s 0 at, slice s (suc at) (len s))
]

-- The ids that a target names: server:…, tag:key=value, or the name of a server.
unfoldable pub resolve_targets : Env → String → String → Db → List String
unfolding id_of tagged split_pair
resolve_targets env org target db =
    if env.fails "resolve targets"
    then []
    else if starts_with target "server:"
    then id_of (find (by_id_or_name (slice target 7 (len target)) org) db.servers)
    else if starts_with target "tag:"
    then (elim (split_pair (slice target 4 (len target))) [
      | none ↦ []
      | some (key, value) ↦ tagged key value org db
    ])
    else id_of (find (by_name target org) db.servers)

-- The environments of the servers, `none` when one is not found.
unfoldable pub environments : String → List String → Db → Option (List String)
environments org [] db = some []
environments org (id ∷ ids) db = elim (find (in_org id org) db.servers) [
  | none ↦ none
  | some s ↦ elim (environments org ids db) [
    | none ↦ none
    | some rest ↦ some (s.environment ∷ rest)
  ]
]

all_same : String → List String → Bool
all_same e [] = true
all_same e (x ∷ l) = x == e && all_same e l

one_of : Option (List String) → String × Bool
one_of none = ("", true)
one_of (some []) = ("", true)
one_of (some (e ∷ l)) = if all_same e l then (e, false) else ("", true)

-- The environment of the targets, and whether they have several.
unfoldable pub target_environment : Env → String → List String → Db → String × Bool
unfolding environments all_same one_of
target_environment env org [] db = ("", false)
target_environment env org (id ∷ ids) db =
    if env.fails "target environment" then ("", true) else one_of (environments org (id ∷ ids) db)

-- Whether every server is found for its snapshot; the snapshots themselves are for display.
unfoldable pub snapshot_targets : Env → String → List String → Db → Bool
snapshot_targets env org [] db = true
snapshot_targets env org (id ∷ ids) db =
    let rest = snapshot_targets env org ids db in
    if env.fails "snapshot targets" then false else exists (in_org id org) db.servers && rest
