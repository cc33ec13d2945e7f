-- ===== src/Authz.antt =====
-- packages/authz: actors and their roles (authz.go), and the execution policy (policy.go).
-- Roles, environments and risk levels are the texts that the code compares.
pub mod Policy
pub mod Risk
use vpstools.Base.{String, Bool, true, false, ◌||◌, List, [], ◌∷◌, Option, none, some, ◌==◌, any}

pub record Actor : Type 0 where
  pub user_id : String
  pub email : String
  pub display_name : String
  pub organisation_id : String
  pub role : String

unfoldable pub has_role : Actor → List String → Bool
has_role a roles = any (λ r. r == a.role) roles

unfoldable pub is_senior : Actor → Bool
unfolding has_role
is_senior a = has_role a ("owner" ∷ "admin" ∷ "senior_engineer" ∷ [])

unfoldable pub is_auditor : Actor → Bool
is_auditor a = a.role == "auditor"

unfoldable pub is_privileged : Actor → Bool
unfolding has_role
is_privileged a = has_role a ("owner" ∷ "admin" ∷ "senior_engineer" ∷ [])

unfoldable pub can_manage_servers : Actor → Bool
unfolding is_privileged
can_manage_servers a = is_privileged a

unfoldable pub can_manage_runners : Actor → Bool
unfolding is_privileged
can_manage_runners a = is_privileged a

unfoldable pub can_execute_raw : Actor → Bool
unfolding is_senior
can_execute_raw a = is_senior a

-- `GetActor` and `RequireActor`: the context carries at most one actor.
unfoldable pub require_actor : Option Actor → Option Actor
require_actor a = a

pub record Decision : Type 0 where
  pub allowed : Bool
  pub reason : String
  pub message : String

abbrev pub deny : String → String → Decision
deny reason message = record { allowed = false; reason = reason; message = message }

abbrev pub allow : Decision
allow = record { allowed = true; reason = ""; message = "" }
