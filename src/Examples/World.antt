-- ===== src/Examples/World.antt =====
-- One organisation with a server, a runner and two executions.
use Prim.Native.String.{◌++◌}
use vpstools.Base.{String, false, none, some, [], ◌∷◌}
use vpstools.Base.Int.{pos}
use vpstools.Authz.{Actor}
use vpstools.Store.Status.{queued, pending, running}
use vpstools.Store.Rows.{Db, Execution, Target, Server, Runner, Credential, AuditInput, active}
use vpstools.Store.Action.{Env}
use vpstools.Throttle
use vpstools.Queue.Claim.{Api}
use vpstools.Queue.Renew.{LeaseRequest}
use vpstools.Queue.Submit.{Submission, Outside}

abbrev pub hash_audit : AuditInput → String
hash_audit i = "h:" ++ i.id

abbrev pub env : Env
env = record {
  now = 1000;
  fails = λ what. false;
  fresh = λ purpose. "new:" ++ purpose;
  hash_token = λ token. "sha:" ++ token;
  hash_audit = hash_audit;
}

abbrev pub owner : Actor
owner = record {
  user_id = "user_1";
  email = "";
  display_name = "";
  organisation_id = "org_1";
  role = "owner";
}

abbrev pub waiting : Target
waiting = record {
  id = "tgt_1";
  organisation_id = "org_1";
  execution_id = "exec_1";
  server_id = "srv_1";
  runner_id = none;
  status = pending;
  started_at = none;
  finished_at = none;
  exit_code = none;
  stdout = "";
  stderr = "";
  stdout_artifact_id = none;
  stderr_artifact_id = none;
  stdout_bytes = 0;
  stderr_bytes = 0;
  lease_id = none;
  lease_expires_at = none;
  attempt = 0;
  max_attempts = 3;
  next_attempt_at = none;
  error_summary = none;
}

abbrev pub busy : Target
busy = record waiting {
  id = "tgt_2";
  execution_id = "exec_2";
  runner_id = some "run_1";
  status = running;
  lease_id = some "lease_1";
  lease_expires_at = some 1200;
  attempt = 1;
}

abbrev pub asked : Execution
asked = record {
  id = "exec_1";
  organisation_id = "org_1";
  actor_user_id = "user_1";
  status = queued;
  environment = "staging";
  risk_level = "low";
  reason = "";
  command = "uptime";
  command_preview = "uptime";
  timeout_seconds = pos 60;
  requested_at = 900;
  started_at = none;
  finished_at = none;
  error_summary = none;
  approval_id = none;
}

abbrev pub started : Execution
started = record asked {
  id = "exec_2";
  status = running;
  requested_at = 800;
  started_at = some 900;
}

abbrev pub worker : Runner
worker = record {
  id = "run_1";
  organisation_id = "org_1";
  name = "worker";
  runner_type = "linux";
  status = active;
  version = none;
  hostname = none;
  platform = none;
  ip_address = none;
  last_seen_at = none;
  registered_at = some 1;
  revoked_at = none;
}

abbrev pub credential : Credential
credential = record {
  id = "cred_1";
  organisation_id = "org_1";
  runner_id = some "run_1";
  token_hash = "sha:secret";
  expires_at = 5000;
  revoked_at = none;
}

abbrev pub web : Server
web = record {
  id = "srv_1";
  organisation_id = "org_1";
  name = "web";
  environment = "staging";
  status = "active";
  hostname = some "web";
  public_ip = none;
  ssh_port = pos 22;
  ssh_username = some "root";
  ssh_credential_ref = none;
  ssh_host_key_fingerprint = none;
  private_ip = none;
  provider = none;
  os = none;
  last_seen_at = none;
  last_check_at = none;
}

abbrev pub db : Db
db = record {
  executions = asked ∷ started ∷ [];
  targets = waiting ∷ busy ∷ [];
  servers = web ∷ [];
  tags = [];
  keys = [];
  runners = worker ∷ [];
  scopes =
      record {
        organisation_id = "org_1";
        runner_id = "run_1";
        scope_type = "all";
        scope_value = "";
      }
      ∷ [];
  credentials = credential ∷ [];
  receipts = [];
  events = [];
  audit = [];
  artifacts = [];
  runbooks = [];
  runbook_versions = [];
  approvals = [];
  memberships = [];
  runbook_keys = [];
  automation_controls = [];
  automation_schedules = [];
  users = [];
  api_tokens = [];
}

abbrev pub api : Api
api = record { db = db; throttle = Throttle.new }

abbrev pub out : Outside
out = record {
  redact = λ s. s;
  payload_hash = λ q. "p:" ++ q.stdout;
  size = λ s. 0;
  put = none;
  artifact_id = λ e t k. k;
  owner_type = λ k. k;
}

abbrev pub result : Submission
result = record {
  execution_id = "exec_2";
  target_id = "tgt_2";
  runner_id = "run_1";
  lease_id = "lease_1";
  exit_code = pos 0;
  stdout = "ok";
  stderr = "";
  error = "";
  duration_ms = pos 5;
}

abbrev pub renewal_request : LeaseRequest
renewal_request = record {
  execution_id = "exec_2";
  target_id = "tgt_2";
  runner_id = "run_1";
  lease_id = "lease_1";
}
