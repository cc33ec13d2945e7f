-- ===== src/Catalogue/Drafts.antt =====
-- The runbook that a request describes, and its rows (handleCreateRunbook and handleUpdateRunbook,
-- apps/api/runbooks.go). Parameters: yaml.Unmarshal, the JSON of a list of roles, the text of an error.
use Prim.Native.String.{◌++◌ as text_append}
use vpstools.Base.{
  zero, suc, String, Bool, false, not, ◌&&◌, ◌||◌, Option, none, some, List, [], ◌∷◌, ◌==◌, ltb,
  all, length, if◌then◌else◌,
}
use vpstools.Base.Int.{ℤ, pos, negsuc, is_zero}
use vpstools.Store.Catalogue.{RunbookRow, RunbookVersion, draft}
use vpstools.Store.Action.{Env}
use vpstools.Authz.{Actor}
use vpstools.Runbooks.Types.{Runbook, Texts, Checked, accepted, rejected}
use vpstools.Runbooks.Validate.{ValidationError, validate}

pub record RunbookRequest : Type 0 where
  pub name : String
  pub title : String
  pub description : String
  pub risk : String
  pub command : String
  pub timeout : ℤ
  pub environment : String
  pub yaml : String
  pub allowed_roles : String

pub record Reader : Type 0 where
  pub texts : Texts
  pub unmarshal : String → Option Runbook
  pub explain : ValidationError → String
  pub parse_roles : String → Option (List String)

-- `Parse`, with the message of its error.
unfoldable pub parse : Reader → String → Checked String Runbook
parse r yaml = elim (r.unmarshal yaml) [
  | none ↦ rejected "invalid YAML"
  | some rb ↦ elim (validate r.texts rb) [
    | accepted checked ↦ accepted checked
    | rejected e ↦ rejected (r.explain e)
  ]
]

-- The case of a risk does not matter here.
unfoldable pub valid_risk : Texts → String → Bool
valid_risk t risk =
    t.lower risk == "low"
    || (t.lower risk == "medium" || (t.lower risk == "high" || t.lower risk == "critical"))

unfoldable pub valid_environment : String → Bool
valid_environment env =
    env == "" || (env == "*" || (env == "development" || (env == "staging" || env == "production")))

abbrev is_known_role : String → Bool
is_known_role r =
    r == "owner"
    || (r == "admin" || (r == "senior_engineer" || (r == "junior_engineer" || r == "auditor")))

unfoldable pub valid_allowed_roles : Reader → String → Bool
valid_allowed_roles r raw = elim (r.parse_roles raw) [
  | none ↦ false
  | some roles ↦ ltb 0 (length roles) && all (λ x. is_known_role (r.texts.lower x)) roles
]

abbrev pub or_default : String → String → String
or_default s d = if s == "" then d else s

-- The runbook of the plain fields of a request: it is not put to `Validate`.
abbrev pub plain_runbook : String → String → String → String → ℤ → ℤ → String → String → Runbook
plain_runbook name title description risk version timeout environment command = record {
  api_version = "vps-tools.io/v1";
  kind = "Runbook";
  metadata = record {
    name = name;
    title = title;
    description = description;
    risk = risk;
    version = version;
  };
  parameters = [];
  targets = record {
    allowed_tags = [];
    allowed_environments = environment ∷ [];
    allowed_servers = [];
  };
  approval = record { required = false; environment = "" };
  timeout_seconds = if is_zero timeout then pos 300 else timeout;
  concurrency = pos 0;
  command = command;
}

-- The runbook of a creation.
unfoldable pub drafted_runbook : Reader → RunbookRequest → Checked String Runbook
unfolding parse valid_risk valid_environment
drafted_runbook r q =
    if not (q.yaml == "")
    then parse r q.yaml
    else if q.name == "" || q.command == ""
    then rejected "name and command are required"
    else if not (valid_risk r.texts (or_default q.risk "medium"))
        || not (valid_environment q.environment)
    then rejected "invalid risk or environment"
    else accepted (
        plain_runbook q.name q.title q.description (or_default q.risk "medium") (pos 1) q.timeout
          q.environment q.command)

abbrev next_version : ℤ → ℤ
next_version (pos n) = pos (suc n)
next_version (negsuc zero) = pos 0
next_version (negsuc (suc n)) = negsuc n

-- The name and the number that an update gives to its runbook.
abbrev renumbered : String → ℤ → Checked String Runbook → Checked String Runbook
renumbered name version (rejected e) = rejected e
renumbered name version (accepted rb) = accepted (record rb {
  metadata = record rb.metadata {
    name = or_default rb.metadata.name name;
    version = next_version version;
  };
})

-- The runbook of an update, of the current name and version.
unfoldable pub revised_runbook : Reader → RunbookRequest → String → ℤ → Checked String Runbook
unfolding parse valid_risk valid_environment
revised_runbook r q name version =
    if q.yaml == "" && r.texts.trim q.command == ""
    then rejected "command or yaml is required"
    else renumbered name version (
        if not (q.yaml == "")
        then parse r q.yaml
        else if not (valid_risk r.texts (or_default q.risk "medium"))
            || not (valid_environment (or_default q.environment "development"))
        then rejected "invalid risk or environment"
        else accepted (
            plain_runbook name q.title q.description (or_default q.risk "medium")
              (next_version version) q.timeout (or_default q.environment "development") q.command))

abbrev pub default_roles : String
default_roles = "[\"senior_engineer\",\"admin\",\"owner\"]"

abbrev pub runbook_id_of : Env → String
runbook_id_of env = text_append "rbk_" (env.fresh "runbook")

abbrev pub version_id_of : Env → String
version_id_of env = text_append "rbv_" (env.fresh "runbook version")

abbrev pub new_row : Env → Actor → Runbook → RunbookRow
new_row env actor rb = record {
  id = runbook_id_of env;
  organisation_id = actor.organisation_id;
  name = rb.metadata.name;
  title = rb.metadata.title;
  description = rb.metadata.description;
  status = draft;
  current_version_id = none;
  created_by_user_id = actor.user_id;
}

abbrev pub new_version : Env → Actor → String → String → Runbook → RunbookVersion
new_version env actor runbook roles rb = record {
  id = version_id_of env;
  organisation_id = actor.organisation_id;
  runbook_id = runbook;
  version = rb.metadata.version;
  status = draft;
  risk_level = rb.metadata.risk;
  allowed_roles = or_default roles default_roles;
  definition = some rb;
  command_preview = rb.command;
  created_by_user_id = actor.user_id;
  published_by_user_id = none;
  published_at = none;
}
