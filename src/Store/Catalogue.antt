-- ===== src/Store/Catalogue.antt =====
-- The rows of runbooks, their versions, approval requests and memberships (apps/api/migrate.go). A
-- column of JSON is what it decodes to, `none` when it does not decode.
use vpstools.Base.{ℕ, String, Bool, true, false, Option, List}
use vpstools.Base.Int.{ℤ}
use vpstools.Runbooks.Types.{Runbook}

pub data RunbookStatus : Type 0 where
  draft published archived : RunbookStatus

abbrev pub is_archived : RunbookStatus → Bool
is_archived archived = true
is_archived _ = false

abbrev pub is_published : RunbookStatus → Bool
is_published published = true
is_published _ = false

pub record RunbookRow : Type 0 where
  pub id : String
  pub organisation_id : String
  pub name : String
  pub title : String
  pub description : String
  pub status : RunbookStatus
  pub current_version_id : Option String
  pub created_by_user_id : String

pub record RunbookVersion : Type 0 where
  pub id : String
  pub organisation_id : String
  pub runbook_id : String
  pub version : ℤ
  pub status : RunbookStatus
  pub risk_level : String
  pub allowed_roles : String
  pub definition : Option Runbook
  pub command_preview : String
  pub created_by_user_id : String
  pub published_by_user_id : Option String
  pub published_at : Option ℕ

pub data ApprovalStatus : Type 0 where
  waiting approved denied : ApprovalStatus

abbrev pub is_waiting : ApprovalStatus → Bool
is_waiting waiting = true
is_waiting _ = false

abbrev pub is_approved : ApprovalStatus → Bool
is_approved approved = true
is_approved _ = false

-- The payload of a request: the execution that it asks for. Snapshots, parameters and the parts that
-- only the display reads are left out.
pub record Intent : Type 0 where
  pub command : String
  pub runbook_id : String
  pub target_ids : List String
  pub environment : String
  pub timeout : ℤ

-- `expires_at` is `none` when its text is empty.
pub record ApprovalRequest : Type 0 where
  pub id : String
  pub organisation_id : String
  pub requester_user_id : String
  pub approver_user_id : Option String
  pub status : ApprovalStatus
  pub risk_level : String
  pub reason : String
  pub target_id : String
  pub request_payload : Option Intent
  pub expires_at : Option ℕ
  pub decided_at : Option ℕ
  pub decision_note : Option String

pub record Membership : Type 0 where
  pub organisation_id : String
  pub user_id : String
  pub role : String
  pub status : String

pub record RunbookKey : Type 0 where
  pub organisation_id : String
  pub user_id : String
  pub idempotency_key : String
  pub payload_hash : String
  pub resource_type : String
  pub resource_id : String
  pub response_status : ℕ
  pub response_body : String
