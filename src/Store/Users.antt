-- ===== src/Store/Users.antt =====
-- The rows of users and of their API tokens (apps/api/migrate.go).
use vpstools.Base.{ℕ, String, Option}

pub record User : Type 0 where
  pub id : String
  pub email : String
  pub display_name : String
  pub status : String
  pub external_subject : Option String

pub record ApiToken : Type 0 where
  pub id : String
  pub organisation_id : String
  pub user_id : String
  pub name : String
  pub token_hash : String
  pub expires_at : ℕ
  pub revoked_at : Option ℕ
