-- ===== src/Store/Scheduling.antt =====
-- The rows of the schedules and of the pause of an organisation (apps/api/migrate.go).
use vpstools.Base.{ℕ, String, Bool, Option, List}
use vpstools.Base.Int.{ℤ}

pub record AutomationControl : Type 0 where
  pub organisation_id : String
  pub paused : Bool
  pub paused_at : Option ℕ
  pub paused_by_user_id : Option String
  pub reason : String

-- `params` is what the column decodes to, with no parameter when it does not decode.
pub record AutomationSchedule : Type 0 where
  pub id : String
  pub organisation_id : String
  pub created_by_user_id : String
  pub name : String
  pub runbook_name : String
  pub target : String
  pub reason : String
  pub params : List (String × String)
  pub interval_seconds : ℤ
  pub next_run_at : ℕ
  pub enabled : Bool
  pub last_run_at : Option ℕ
  pub last_error : Option String
