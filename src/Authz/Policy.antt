-- ===== src/Authz/Policy.antt =====
-- packages/authz/policy.go: who may execute what, and where.
pub mod Rules
use vpstools.Base.{String, Bool, true, false, not, ◌&&◌, List, [], ◌∷◌, ◌==◌, if◌then◌else◌}
use Prim.Native.String.{◌++◌}
use vpstools.Authz.{
  Actor, Decision, deny, allow, has_role, is_senior, is_auditor, is_privileged, can_manage_servers,
  can_manage_runners, can_execute_raw,
}

unfoldable pub check_execution : Actor → String → String → String → Decision
unfolding has_role is_senior is_auditor can_execute_raw
check_execution actor environment risk reason =
    if is_auditor actor
    then deny "auditor_cannot_execute"
        "Auditors cannot execute operations. Use the audit search view instead."
    else if risk == "critical" && not (has_role actor ("owner" ∷ "admin" ∷ []))
    then deny "critical_requires_admin"
        "Critical-risk commands require Owner or Admin role. Request an admin to run this."
    else if risk == "high" && not (is_senior actor)
    then deny "high_risk_requires_senior"
        "High-risk commands require senior engineer or above.\nJunior engineers can execute a pre-approved runbook instead."
    else if not (can_execute_raw actor)
    then deny "junior_raw_command_denied"
        "Junior engineers cannot run arbitrary commands.\nUse 'vps runbook list' to see permitted runbooks, then 'vps runbook run <name> --target <server>'."
    else if environment == "production" && reason == ""
    then deny "production_requires_reason"
        "Production environment actions require a reason. Use --reason \"...\" to explain why."
    else if environment == "production" && not (is_senior actor)
    then deny "junior_production_denied"
        "Junior engineers cannot target production environments directly."
    else allow

unfoldable pub check_server_management : Actor → Decision
unfolding can_manage_servers
check_server_management actor =
    if not (can_manage_servers actor)
    then deny "manage_servers_requires_privileged"
        ("Adding servers requires senior_engineer or above (current: " ++ (actor.role ++ ")"))
    else allow

unfoldable pub check_server_check : Actor → Decision
unfolding is_privileged
check_server_check actor =
    if not (is_privileged actor)
    then deny "check_requires_privileged" "Server health checks require senior_engineer or above."
    else allow

unfoldable pub check_runner_management : Actor → Decision
unfolding can_manage_runners
check_runner_management actor =
    if not (can_manage_runners actor)
    then deny "manage_runners_requires_privileged"
        ("Managing runners requires senior_engineer or above (current: " ++ (actor.role ++ ")"))
    else allow

-- The definition of the runbook is an argument that the code does not read.
unfoldable pub check_runbook_execution : Actor → String → String → String → Decision
unfolding has_role is_senior is_auditor
check_runbook_execution actor environment risk reason =
    if is_auditor actor
    then deny "auditor_cannot_execute" "Auditors cannot execute operations."
    else if risk == "critical" && not (has_role actor ("owner" ∷ "admin" ∷ []))
    then deny "critical_requires_admin" "Critical-risk runbooks require Owner or Admin role."
    else if risk == "high" && not (is_senior actor)
    then deny "high_risk_requires_senior" "High-risk runbooks require senior engineer or above."
    else if environment == "production" && reason == ""
    then deny "production_requires_reason" "Production environment actions require a reason."
    else if environment == "production" && not (is_senior actor)
    then deny "junior_production_denied"
        "Junior engineers cannot target production environments directly."
    else allow

unfoldable pub deny_message : Decision → String
deny_message d = if not (d.message == "") then d.message else "Action denied: " ++ d.reason
