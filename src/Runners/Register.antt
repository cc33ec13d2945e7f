-- ===== src/Runners/Register.antt =====
-- Registration and heartbeats (apps/api/runners.go).
-- A request body that does not decode is `none`.
use vpstools.Base.{
  String, Bool, ◌&&◌, Option, none, some, [], ◌∷◌, ◌++◌, ◌==◌, eqb, coalesce, null_if_empty,
  if◌then◌else◌,
}
use vpstools.Base.Table.{find, update, count}
use vpstools.Store.Rows.{Db, Runner, active, RunnerScope, text}
use vpstools.Store.Action.{
  Action, Env, pure, gets, or_raise, modify, refuse_if, on_error, ◌>>=◌, ◌>>◌,
}
use vpstools.Audit.{write_audit_event}
use vpstools.Runners.Reply.{Reply, failure, status, registered, respond}
use vpstools.Runners.Auth.{is_runner, authenticate_runner_credential, authenticate_bound_runner}
use vpstools.Runners.Credentials.{not_found, create_runner_credential}
use vpstools.Runners.Manage.{manageable}

-- What a runner says of itself.
pub record Registration : Type 0 where
  pub name : String
  pub version : String
  pub hostname : String
  pub platform : String
  pub ip_address : String
  pub runner_type : String

abbrev refresh : Env → Registration → Runner → Runner
refresh env req r = record r {
  status = active;
  version = null_if_empty req.version;
  hostname = null_if_empty req.hostname;
  platform = null_if_empty req.platform;
  ip_address = null_if_empty req.ip_address;
  registered_at = some (coalesce r.registered_at env.now);
  last_seen_at = some env.now;
}

abbrev new_runner : Env → String → Registration → Runner
new_runner env org req = record {
  id = env.fresh "runner";
  organisation_id = org;
  name = req.name;
  runner_type = if req.runner_type == "" then "customer_managed" else req.runner_type;
  status = active;
  version = null_if_empty req.version;
  hostname = null_if_empty req.hostname;
  platform = null_if_empty req.platform;
  ip_address = null_if_empty req.ip_address;
  last_seen_at = none;
  registered_at = some env.now;
  revoked_at = none;
}

-- A bound credential renews its runner, a bootstrap credential makes one. The reply to a failed insert
-- also has the text of the database.
enrol : Env → String → String → Registration → Action Reply String
enrol env org bound req =
    if bound == ""
    then (do
      refuse_if (env.fails "insert runner") (failure 500 "failed to register runner")
      modify (λ db. record db { runners = db.runners ++ new_runner env org req ∷ [] })
      pure (env.fresh "runner"))
    else (do
      refuse_if (env.fails "failed to register runner") (failure 500 "failed to register runner")
      n ← gets (λ db. count (manageable bound org) db.runners)
      modify
          (λ db. record db { runners = update (manageable bound org) (refresh env req) db.runners })
      refuse_if (eqb n 0) (failure 401 "runner is not available for registration")
      pure bound)

abbrev same_scope : RunnerScope → RunnerScope → Bool
same_scope a b =
    a.runner_id == b.runner_id && (a.scope_type == b.scope_type && a.scope_value == b.scope_value)

abbrev all_scope : String → String → RunnerScope
all_scope org runner = record {
  organisation_id = org;
  runner_id = runner;
  scope_type = "all";
  scope_value = "*";
}

-- INSERT … ON CONFLICT DO NOTHING; a scope is unique for its runner, type and value.
abbrev add_scope : RunnerScope → Db → Db
add_scope s db = elim (find (same_scope s) db.scopes) [
  | none ↦ record db { scopes = db.scopes ++ s ∷ [] }
  | some known ↦ db
]

-- `handleRegisterRunner`.
unfoldable pub handle_register_runner : Env → String → Option Registration → Db → Reply × Db
unfolding enrol respond ◌>>=◌
handle_register_runner env bearer body = respond (do
  who ← on_error (failure 401) (authenticate_runner_credential env bearer)
  req ← or_raise body (failure 400 "invalid request body")
  refuse_if (req.name == "") (failure 400 "name is required")
  runner ← enrol env who.0 who.1 req
  refuse_if (env.fails "failed to assign runner scope")
      (failure 500 "failed to assign runner scope")
  modify (add_scope (all_scope who.0 runner))
  bound ←
      on_error (λ e. failure 500 "failed to issue runner credential")
        (create_runner_credential env who.0 "" runner)
  write_audit_event env who.0 "" "runner.registered" "runner" runner "success"
      (("name", text req.name) ∷ [])
  pure (registered runner bound))

pub record Heartbeat : Type 0 where
  pub runner_id : String
  pub hostname : String
  pub platform : String
  pub version : String

-- `COALESCE(NULLIF(?,''), column)`
abbrev keep_unless : String → Option String → Option String
keep_unless s old = if s == "" then old else some s

abbrev pub beat : Env → Heartbeat → Runner → Runner
beat env req r = record r {
  status = active;
  last_seen_at = some env.now;
  hostname = keep_unless req.hostname r.hostname;
  platform = keep_unless req.platform r.platform;
  version = keep_unless req.version r.version;
}

-- `handleRunnerHeartbeat`.
unfoldable pub handle_runner_heartbeat : Env → String → Option Heartbeat → Db → Reply × Db
unfolding respond ◌>>=◌
handle_runner_heartbeat env bearer body = respond (do
  req ← or_raise body (failure 400 "invalid request body")
  org ← on_error (failure 401) (authenticate_bound_runner env bearer req.runner_id)
  refuse_if (env.fails "heartbeat") (failure 404 not_found)
  n ← gets (λ db. count (is_runner req.runner_id org) db.runners)
  modify
      (λ db. record db { runners = update (is_runner req.runner_id org) (beat env req) db.runners })
  refuse_if (eqb n 0) (failure 404 not_found)
  pure (status 200 "ok"))
