-- ===== src/Store/Rows.antt =====
-- The rows of apps/api/migrate.go, with the columns that the modelled handlers read or write.
-- Times are seconds; a column that may be NULL is an option.
use vpstools.Base.{ℕ, String, Option, List}
use vpstools.Base.Int.{ℤ}
use vpstools.Store.Status.{Status}
use vpstools.Store.Users.{User, ApiToken}
use vpstools.Store.Scheduling.{AutomationControl, AutomationSchedule}
use vpstools.Store.Catalogue.{RunbookRow, RunbookVersion, ApprovalRequest, Membership, RunbookKey}

-- A value of the JSON metadata of an event.
pub data Value : Type 0 where
  number : ℤ → Value
  text : String → Value

abbrev pub Metadata : Type 0
Metadata = List (String × Value)

-- Without the columns that only the creation writes: the role and the delegate of the requester, the
-- type, and the hash of the command.
pub record Execution : Type 0 where
  pub id : String
  pub organisation_id : String
  pub actor_user_id : String
  pub status : Status
  pub environment : String
  pub risk_level : String
  pub reason : String
  pub command : String
  pub command_preview : String
  pub timeout_seconds : ℤ
  pub requested_at : ℕ
  pub started_at : Option ℕ
  pub finished_at : Option ℕ
  pub error_summary : Option String
  pub approval_id : Option String

pub record Target : Type 0 where
  pub id : String
  pub organisation_id : String
  pub execution_id : String
  pub server_id : String
  pub runner_id : Option String
  pub status : Status
  pub started_at : Option ℕ
  pub finished_at : Option ℕ
  pub exit_code : Option ℤ
  pub stdout : String
  pub stderr : String
  pub stdout_artifact_id : Option String
  pub stderr_artifact_id : Option String
  pub stdout_bytes : ℕ
  pub stderr_bytes : ℕ
  pub lease_id : Option String
  pub lease_expires_at : Option ℕ
  pub attempt : ℕ
  pub max_attempts : ℕ
  pub next_attempt_at : Option ℕ
  pub error_summary : Option String

-- `none` where the four columns are NULL; they are written together.
pub record Os : Type 0 where
  pub name : String
  pub version : String
  pub kernel : String
  pub architecture : String

pub record Server : Type 0 where
  pub id : String
  pub organisation_id : String
  pub name : String
  pub environment : String
  pub status : String
  pub hostname : Option String
  pub public_ip : Option String
  pub ssh_port : ℤ
  pub ssh_username : Option String
  pub ssh_credential_ref : Option String
  pub ssh_host_key_fingerprint : Option String
  pub private_ip : Option String
  pub provider : Option String
  pub os : Option Os
  pub last_seen_at : Option ℕ
  pub last_check_at : Option ℕ

pub record ServerTag : Type 0 where
  pub organisation_id : String
  pub server_id : String
  pub key : String
  pub value : String

pub record IdempotencyKey : Type 0 where
  pub organisation_id : String
  pub user_id : String
  pub idempotency_key : String
  pub payload_hash : String
  pub execution_id : String
  pub response_body : String

pub data RunnerStatus : Type 0 where
  runner_pending active paused revoked : RunnerStatus

pub record Runner : Type 0 where
  pub id : String
  pub organisation_id : String
  pub name : String
  pub runner_type : String
  pub status : RunnerStatus
  pub version : Option String
  pub hostname : Option String
  pub platform : Option String
  pub ip_address : Option String
  pub last_seen_at : Option ℕ
  pub registered_at : Option ℕ
  pub revoked_at : Option ℕ

pub record RunnerScope : Type 0 where
  pub organisation_id : String
  pub runner_id : String
  pub scope_type : String
  pub scope_value : String

pub record Credential : Type 0 where
  pub id : String
  pub organisation_id : String
  pub runner_id : Option String
  pub token_hash : String
  pub expires_at : ℕ
  pub revoked_at : Option ℕ

pub record Receipt : Type 0 where
  pub organisation_id : String
  pub execution_id : String
  pub target_id : String
  pub lease_id : String
  pub runner_id : String
  pub payload_hash : String
  pub response_code : ℕ
  pub response_body : String

pub record ExecutionEvent : Type 0 where
  pub id : String
  pub organisation_id : String
  pub execution_id : String
  pub target_id : Option String
  pub from_status : Option Status
  pub to_status : Status
  pub event_type : String
  pub metadata : Metadata
  pub occurred_at : ℕ

-- `auditHashInput` of helpers.go.
pub record AuditInput : Type 0 where
  pub id : String
  pub organisation_id : String
  pub actor_user_id : String
  pub actor_type : String
  pub action : String
  pub target_type : String
  pub target_id : String
  pub result : String
  pub metadata : Metadata
  pub occurred_at : ℕ
  pub previous_hash : String

pub record AuditEvent : Type 0 where
  pub input : AuditInput
  pub event_hash : String

pub record ArtifactRecord : Type 0 where
  pub id : String
  pub organisation_id : String
  pub owner_type : String
  pub owner_id : String
  pub byte_size : ℕ

pub record Db : Type 0 where
  pub executions : List Execution
  pub targets : List Target
  pub servers : List Server
  pub tags : List ServerTag
  pub keys : List IdempotencyKey
  pub runners : List Runner
  pub scopes : List RunnerScope
  pub credentials : List Credential
  pub receipts : List Receipt
  pub events : List ExecutionEvent
  pub audit : List AuditEvent
  pub artifacts : List ArtifactRecord
  pub runbooks : List RunbookRow
  pub runbook_versions : List RunbookVersion
  pub approvals : List ApprovalRequest
  pub memberships : List Membership
  pub runbook_keys : List RunbookKey
  pub automation_controls : List AutomationControl
  pub automation_schedules : List AutomationSchedule
  pub users : List User
  pub api_tokens : List ApiToken
