-- ===== src/Executions/Create.antt =====
-- handleCreateExecution and replayIdempotentExecution (apps/api/executions.go), with the idempotency
-- keys of apps/api/helpers.go. Parameters: SHA-256 over the JSON of the request, packages/redact, the JSON
-- of the reply, and strings.ToLower and strings.TrimSpace. The notification that follows the commit
-- is left out: its failure changes nothing.
pub mod Handle
pub mod Allowed
pub mod Repeat
pub mod Replay
use Prim.Native.Char.{code}
use Prim.Native.String.{len}
use Prim.Native.String
use vpstools.Base.{
  ℕ, String, Bool, true, false, not, ◌&&◌, ◌||◌, Option, none, some, List, [], ◌∷◌, ◌++◌, ◌==◌, ltb,
  leb, eqb, length, if◌then◌else◌,
}
use vpstools.Base.Int.{ℤ, pos}
use vpstools.Base.Table.{find, exists}
use vpstools.Store.Status.{queued, pending}
use vpstools.Store.Rows.{Db, Execution, Target, IdempotencyKey, number, text}
use vpstools.Store.Action.{
  Action, Env, Result, ok, err, pure, raise, gets, or_raise, modify, refuse_if, on_error, when,
  transaction, ◌>>=◌, ◌>>◌,
}
use vpstools.Authz.{Actor, Decision}
use vpstools.Authz.Policy.{check_execution}
use vpstools.Authz.Risk.{classify_risk}
use vpstools.Audit.{record_execution_event, write_audit_event_tx}
use vpstools.Runners.Denial.{write_denial}
use vpstools.Runners.Reply.{Reply, failure, raw}
use vpstools.Executions.Targets.{resolve_targets, target_environment, snapshot_targets}

pub record Request : Type 0 where
  pub target : String
  pub command : String
  pub reason : String
  pub delegated_by_user_id : String

pub record Helpers : Type 0 where
  pub trim : String → String
  pub lower_trim : String → String
  pub redact : String → String
  pub payload_hash : Request → String
  -- the reply's JSON, by execution, risk and number of targets
  pub body : String → String → ℕ → String

abbrev is_key_char : ℕ → Bool
is_key_char c =
    (leb 97 c && leb c 122)
    || ((leb 65 c && leb c 90) || ((leb 48 c && leb c 57) || (eqb c 46 || (eqb c 95 || eqb c 45))))

unfoldable pub all_key_chars : String → Bool
all_key_chars String.[] = true
all_key_chars (String.◌∷◌ c s) = is_key_char (code c) && all_key_chars s

-- `validIdempotencyKey`.
unfoldable pub valid_idempotency_key : String → Bool
unfolding all_key_chars
valid_idempotency_key key = not (eqb (len key) 0) && (leb (len key) 128 && all_key_chars key)

-- `organisation_id = ? AND user_id = ? AND idempotency_key = ?`
abbrev pub is_key : Actor → String → IdempotencyKey → Bool
is_key actor key k =
    k.organisation_id == actor.organisation_id
    && (k.user_id == actor.user_id && k.idempotency_key == key)

-- The primary key of execution_idempotency, which leaves out the user.
abbrev pub takes_key : Actor → String → IdempotencyKey → Bool
takes_key actor key k = k.organisation_id == actor.organisation_id && k.idempotency_key == key

abbrev pub replay_of : String → Option IdempotencyKey → Option Reply
replay_of hash none = none
replay_of hash (some k) = some (
    if k.payload_hash == hash
    then raw 201 k.response_body
    else failure 409 "idempotency key was already used with a different request payload")

-- What a key has been answered with, if it has.
unfoldable pub replay_idempotent_execution :
    Env → Actor → String → String → Action Reply (Option Reply)
replay_idempotent_execution env actor key hash = do
  refuse_if (env.fails "failed to inspect idempotency key")
      (failure 500 "failed to inspect idempotency key")
  found ← gets (λ db. find (is_key actor key) db.keys)
  pure (replay_of hash found)

pub data CreateError : Type 0 where
  refused : Reply → CreateError
  key_taken : CreateError

abbrev pub execution_id : Env → String
execution_id env = String.◌++◌ "exe_" (env.fresh "execution")

abbrev pub new_execution : Env → Helpers → Actor → Request → String → String → Execution
new_execution env h actor q environment risk = record {
  id = execution_id env;
  organisation_id = actor.organisation_id;
  actor_user_id = actor.user_id;
  status = queued;
  environment = environment;
  risk_level = risk;
  reason = q.reason;
  command = q.command;
  command_preview = h.redact q.command;
  timeout_seconds = pos 300;
  requested_at = env.now;
  started_at = none;
  finished_at = none;
  error_summary = none;
  approval_id = none;
}

-- A row with the defaults of the table: three attempts.
abbrev pub new_target : Env → String → String → Target
new_target env org server = record {
  id = String.◌++◌ "ext_" (env.fresh server);
  organisation_id = org;
  execution_id = execution_id env;
  server_id = server;
  runner_id = none;
  status = pending;
  started_at = none;
  finished_at = none;
  exit_code = none;
  stdout = "";
  stderr = "";
  stdout_artifact_id = none;
  stderr_artifact_id = none;
  stdout_bytes = 0;
  stderr_bytes = 0;
  lease_id = none;
  lease_expires_at = none;
  attempt = 0;
  max_attempts = 3;
  next_attempt_at = none;
  error_summary = none;
}

unfoldable pub insert_targets : Env → String → List String → Action CreateError (Unit {0})
insert_targets env org [] = pure tt
insert_targets env org (server ∷ servers) = do
  refuse_if (env.fails "failed to create execution target")
      (refused (failure 500 "failed to create execution target"))
  modify (λ db. record db { targets = db.targets ++ new_target env org server ∷ [] })
  insert_targets env org servers

unfoldable pub insert_key : Env → Actor → String → String → String → Action CreateError (Unit {0})
insert_key env actor key hash body = do
  taken ← gets (λ db. exists (takes_key actor key) db.keys)
  refuse_if (env.fails "insert key" || taken) key_taken
  modify (λ db. record db {
    keys =
        db.keys
        ++ record {
          organisation_id = actor.organisation_id;
          user_id = actor.user_id;
          idempotency_key = key;
          payload_hash = hash;
          execution_id = execution_id env;
          response_body = body;
        }
          ∷ [];
  })

unfoldable pub create_tx :
    Env
    → Helpers
    → Actor
    → Request
    → String
    → String
    → List String
    → String
    → String
    → Action CreateError Reply
create_tx env h actor q key hash ids environment risk = do
  refuse_if (env.fails "failed to create execution")
      (refused (failure 500 "failed to create execution"))
  modify (λ db. record db {
    executions = db.executions ++ new_execution env h actor q environment risk ∷ [];
  })
  insert_targets env actor.organisation_id ids
  on_error (λ e. refused (failure 500 "failed to record execution timeline"))
      (record_execution_event env actor.organisation_id (execution_id env) "" none queued
        "execution.queued" (("execution_type", text "raw_command") ∷ []))
  on_error (λ e. refused (failure 500 "failed to record execution audit event"))
      (write_audit_event_tx env actor.organisation_id actor.user_id "execution.requested"
        "execution" (execution_id env) "queued"
        (("command", text (h.redact q.command))
          ∷ ("reason", text q.reason)
          ∷ ("target", text q.target)
          ∷ ("risk", text risk)
          ∷ ("target_count", number (pos (length ids)))
          ∷ []))
  let body = h.body (execution_id env) risk (length ids)
  when (not (key == "")) (insert_key env actor key hash body)
  refuse_if (env.fails "failed to commit execution")
      (refused (failure 500 "failed to commit execution"))
  pure (raw 201 body)
