-- ===== src/Approvals/Request.antt =====
-- What handleRunRunbook reads before it acts (apps/api/runbooks.go): the runbook, the roles that may run
-- it, the targets it is allowed on, the key that a request repeats, and whether approval is needed.
-- Parameters: packages/redact, SHA-256 over the JSON of the request, the JSON of a list of roles,
-- strings.EqualFold, the text of an error and the JSON of the replies.
use vpstools.Base.{
  ℕ, suc, zero, String, Bool, true, false, not, ◌&&◌, ◌||◌, Option, none, some, List, [], ◌∷◌, ◌==◌,
  ltb, any, length, if◌then◌else◌,
}
use vpstools.Base.Int.{ℤ, pos, negsuc}
use vpstools.Base.Table.{find, exists}
use vpstools.Store.Catalogue.{RunbookRow, RunbookVersion, RunbookKey, is_published}
use vpstools.Store.Rows.{Db, Server}
use vpstools.Store.Action.{Action, Env, pure, gets, refuse_if, ◌>>=◌, ◌>>◌}
use vpstools.Authz.{Actor, is_senior}
use vpstools.Runbooks.Types.{Runbook, Texts}
use vpstools.Runbooks.Params.{Params, ParamError}
use vpstools.Runbooks.Validate.{needs_approval}
use vpstools.Runners.Reply.{Reply, failure, raw}
use vpstools.Executions.Targets.{in_org}

pub record RunRequest : Type 0 where
  pub target : String
  pub reason : String
  pub params : Params
  pub dry_run : Bool

pub record Outside : Type 0 where
  pub texts : Texts
  pub redact : String → String
  pub explain : ParamError → String
  -- the hash of the request for the runbook of that name
  pub payload_hash : String → RunRequest → String
  pub parse_roles : String → Option (List String)
  pub equal_fold : String → String → Bool
  -- ApprovalExpirySeconds of the configuration
  pub approval_expiry : ℤ
  -- the reply's JSON, by approval, and by execution and number of targets
  pub awaiting_body : String → String
  pub queued_body : String → ℕ → String

-- `approvalExpirySeconds`.
unfoldable pub approval_expiry_seconds : ℤ → ℕ
approval_expiry_seconds (pos zero) = 3600
approval_expiry_seconds (pos (suc n)) = suc n
approval_expiry_seconds (negsuc n) = 3600

-- `(r.id = ? OR r.name = ?) AND r.organisation_id = ?`
abbrev pub is_runbook : String → String → RunbookRow → Bool
is_runbook name org r = (r.id == name || r.name == name) && r.organisation_id == org

abbrev pub is_version : Option String → RunbookVersion → Bool
is_version none v = false
is_version (some id) v = v.id == id

-- A runbook joined with its current version.
abbrev pub with_version : Db → Option RunbookRow → Option (RunbookRow × RunbookVersion)
with_version db none = none
with_version db (some r) = elim (find (is_version r.current_version_id) db.runbook_versions) [
  | none ↦ none
  | some v ↦ some (r, v)
]

abbrev pub can_run : String → String → RunbookRow → Bool
can_run name org r = is_runbook name org r && is_published r.status

unfoldable pub find_published : String → String → Db → Option (RunbookRow × RunbookVersion)
find_published name org db = with_version db (find (can_run name org) db.runbooks)

unfoldable pub role_allowed_in_list : Outside → String → String → Bool
role_allowed_in_list out role roles = if roles == "" then false else (elim (out.parse_roles roles) [
  | none ↦ false
  | some l ↦ any (λ r. out.equal_fold r role) l
])

abbrev server_allowed : Runbook → Server → Bool
server_allowed rb s =
    ltb 0 (length rb.targets.allowed_servers)
    && not (any (λ c. c == s.id || (c == s.name || c == "*")) rb.targets.allowed_servers)

-- The server has every tag that the runbook asks for; the map of tags is visited in some order.
unfoldable pub has_tags : Env → String → String → Db → List (String × String) → Bool
has_tags env org server db [] = true
has_tags env org server db ((key, value) ∷ rest) =
    not (env.fails "count tags")
    && (exists
          (λ t.
            t.organisation_id == org
            && (t.server_id == server && (t.key == key && t.value == value)))
          db.tags
        && has_tags env org server db rest)

unfoldable pub runbook_targets_allowed : Env → String → Runbook → List String → Db → Bool
unfolding has_tags
runbook_targets_allowed env org rb [] db = true
runbook_targets_allowed env org rb (id ∷ ids) db = elim (find (in_org id org) db.servers) [
  | none ↦ false
  | some s ↦
      not (env.fails "read server name")
      && (not (server_allowed rb s)
          && (has_tags env org id db rb.targets.allowed_tags
              && runbook_targets_allowed env org rb ids db))
]

-- A high or critical risk in production, a runbook that asks for it, or a high risk run by a junior.
unfoldable pub requires_approval : Actor → Runbook → String → String → Bool
unfolding needs_approval is_senior
requires_approval actor rb env risk =
    needs_approval rb env
    || ((env == "production" && (risk == "high" || risk == "critical"))
        || (risk == "high" && not (is_senior actor)))

-- `organisation_id = ? AND user_id = ? AND idempotency_key = ?`
abbrev pub is_runbook_key : Actor → String → RunbookKey → Bool
is_runbook_key actor key k =
    k.organisation_id == actor.organisation_id
    && (k.user_id == actor.user_id && k.idempotency_key == key)

-- The primary key of runbook_idempotency, which leaves out the user.
abbrev pub takes_runbook_key : Actor → String → RunbookKey → Bool
takes_runbook_key actor key k =
    k.organisation_id == actor.organisation_id && k.idempotency_key == key

abbrev pub answer_of : String → Option RunbookKey → Option Reply
answer_of hash none = none
answer_of hash (some k) = some (
    if k.payload_hash == hash
    then raw k.response_status k.response_body
    else failure 409 "idempotency key was already used with a different request payload")

-- `replayRunbookIdempotency`.
unfoldable pub replay_runbook_idempotency :
    Env → Actor → String → String → Action Reply (Option Reply)
replay_runbook_idempotency env actor key hash = do
  refuse_if (env.fails "failed to inspect idempotency key")
      (failure 500 "failed to inspect idempotency key")
  found ← gets (λ db. find (is_runbook_key actor key) db.runbook_keys)
  pure (answer_of hash found)
