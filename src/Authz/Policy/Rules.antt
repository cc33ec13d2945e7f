-- ===== src/Authz/Policy/Rules.antt =====
-- What the policy grants, as rules over roles.
use vpstools.Base.{String, true, ◌≡◌, ◌≢◌, ◌⊎◌, ◌↔◌, arith, eq_iff}
use vpstools.Authz.{Actor}
use vpstools.Authz.Policy.{check_execution, check_runbook_execution}

abbrev pub IsAdmin : Actor → Type 0
IsAdmin a = (a.role ≡ "owner") ⊎ (a.role ≡ "admin")

abbrev pub IsSenior : Actor → Type 0
IsSenior a = (a.role ≡ "owner") ⊎ (a.role ≡ "admin") ⊎ (a.role ≡ "senior_engineer")

-- The conditions under which an execution may run.
pub record MayExecute (a : Actor) (environment risk reason : String) : Type 0 where
  pub senior : IsSenior a
  pub critical : risk ≡ "critical" → IsAdmin a
  pub production : environment ≡ "production" → reason ≢ ""

-- The same for a runbook, which needs no role when its risk is low and it stays out of production.
pub record MayRunbook (a : Actor) (environment risk reason : String) : Type 0 where
  pub not_auditor : a.role ≢ "auditor"
  pub critical : risk ≡ "critical" → IsAdmin a
  pub high : risk ≡ "high" → IsSenior a
  pub production : environment ≡ "production" → (reason ≢ "") × IsSenior a

module _ (a : Actor) (environment risk reason : String) where
  -- An execution is allowed exactly when the role is owner, admin or senior engineer, a critical
  -- risk is run by an owner or admin, and an action in production has a reason.
  pub check_execution_iff :
      ((check_execution a environment risk reason).allowed ≡ true)
      ↔ MayExecute a environment risk reason
  unfolding check_execution
  check_execution_iff = (
    λ h. record {
      senior =
          ground
            (arith, eq_iff "owner" a.role, eq_iff "admin" a.role, eq_iff "senior_engineer" a.role);
      critical =
          λ e. ground (arith, eq_iff risk "critical", eq_iff "owner" a.role, eq_iff "admin" a.role);
      production = λ e r. ground (arith, eq_iff environment "production", eq_iff reason "");
    },
    λ h. granted h,
  )
    where
      granted :
          MayExecute a environment risk reason
          → (check_execution a environment risk reason).allowed ≡ true
      granted h = ground (
        arith,
        h.critical,
        h.production,
        eq_iff "owner" a.role,
        eq_iff "admin" a.role,
        eq_iff "senior_engineer" a.role,
        eq_iff a.role "auditor",
        eq_iff "owner" "auditor",
        eq_iff "admin" "auditor",
        eq_iff "senior_engineer" "auditor",
        eq_iff risk "critical",
        eq_iff environment "production",
        eq_iff reason "",
      )

  -- A runbook may run exactly when the role is not auditor, a critical risk is run by an owner or
  -- admin, a high risk by a senior role, and an action in production has a reason and a senior role.
  pub check_runbook_execution_iff :
      ((check_runbook_execution a environment risk reason).allowed ≡ true)
      ↔ MayRunbook a environment risk reason
  unfolding check_runbook_execution
  check_runbook_execution_iff = (
    λ h. record {
      not_auditor = λ e. ground (arith, eq_iff a.role "auditor");
      critical =
          λ e. ground (arith, eq_iff risk "critical", eq_iff "owner" a.role, eq_iff "admin" a.role);
      high = λ e. ground (
        arith,
        eq_iff risk "high",
        eq_iff "owner" a.role,
        eq_iff "admin" a.role,
        eq_iff "senior_engineer" a.role,
      );
      production = λ e. (
        λ r. ground (arith, eq_iff environment "production", eq_iff reason ""),
        ground (
          arith,
          eq_iff environment "production",
          eq_iff "owner" a.role,
          eq_iff "admin" a.role,
          eq_iff "senior_engineer" a.role,
        ),
      );
    },
    λ h. granted h,
  )
    where
      granted :
          MayRunbook a environment risk reason
          → (check_runbook_execution a environment risk reason).allowed ≡ true
      granted h = ground (
        arith,
        h.critical,
        h.high,
        h.production,
        h.not_auditor,
        eq_iff "owner" a.role,
        eq_iff "admin" a.role,
        eq_iff "senior_engineer" a.role,
        eq_iff a.role "auditor",
        eq_iff risk "critical",
        eq_iff risk "high",
        eq_iff environment "production",
        eq_iff reason "",
      )
