-- ===== src/Queue/Tidy/Scheduling.antt =====
-- The invariant of the targets across a cycle of the scheduler (apps/api/automation.go).
use vpstools.Base.{refl, String, List}
use vpstools.Store.Scheduling.{AutomationSchedule}
use vpstools.Store.Catalogue.{RunbookRow}
use vpstools.Store.Rows.{Execution, Metadata}
use vpstools.Store.Action.{Env}
use vpstools.Store.Keeps.{Keeps}
use vpstools.Audit.{write_audit_event_type}
use vpstools.Approvals.Request.{Outside}
use vpstools.Automation.Run.{scheduled_tx, execute_scheduled_run}
use vpstools.Automation.Cycle.{run_env, run_due_schedules_once}
use vpstools.Automation.Kept.{rendered-Keeps, run_due-Keeps, cycle-Keeps}
use vpstools.Queue.Tidy.{IsTidy, others_move, tidy_rules}
use vpstools.Queue.Tidy.Creation.{insert_targets-IsTidy}

write_audit_event_type-IsTidy :
    (env : Env) (org actor type action target_type target result : String) (metadata : Metadata)
    → Keeps IsTidy
        (write_audit_event_type env org actor type action target_type target result metadata)
unfolding write_audit_event_type
write_audit_event_type-IsTidy env org actor type action target_type target result metadata =
    search (tidy_rules, others_move)

ruleset cycle_rules =
    (tidy_rules, others_move, insert_targets-IsTidy, write_audit_event_type-IsTidy)

scheduled_tx-IsTidy :
    (env : Env) (s : AutomationSchedule) (row : RunbookRow) (e : Execution) (ids : List String)
    → Keeps IsTidy (scheduled_tx env s row e ids)
unfolding scheduled_tx
scheduled_tx-IsTidy env s row e ids = search cycle_rules depth 30

execute-IsTidy :
    (env : Env) (out : Outside) (s : AutomationSchedule)
    → Keeps IsTidy (execute_scheduled_run env out s)
unfolding execute_scheduled_run
execute-IsTidy env out s = search (cycle_rules, rendered-Keeps, scheduled_tx-IsTidy) depth 60

pub cycle-IsTidy : (env : Env) (out : Outside) → Keeps IsTidy (run_due_schedules_once env out)
cycle-IsTidy env out = cycle-Keeps env out (λ paused_orgs s.
    run_due-Keeps env out s (λ f. others_move _ (λ db. refl)) (execute-IsTidy (run_env env s) out s)
      paused_orgs)
