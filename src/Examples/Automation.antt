-- ===== src/Examples/Automation.antt =====
-- Scheduled runs at concrete inputs.
use vpstools.Base.{◌≡◌, refl, true, some, none, [], ◌∷◌}
use vpstools.Base.Int.{pos}
use vpstools.Base.Assoc.{lookup, put}
use vpstools.Base.Table.{find, select, exists}
use vpstools.Store.Scheduling.{AutomationSchedule}
use vpstools.Store.Rows.{Db}
use vpstools.Store.Action.{ok, ◌>>=◌}
use vpstools.Audit.{record_execution_event, write_audit_event_type, latest_audit_hash}
use vpstools.Runbooks.Values.{validate_type, validate_parameter_value}
use vpstools.Runbooks.Validate.{environment_allowed}
use vpstools.Runbooks.Params.{
  pieces, check_known, check_value, check_values, check_required, check_tokens, definitions_of,
  defaults_of, validate_params,
}
use vpstools.Runbooks.Render.{render, render_command, shell_quote}
use vpstools.Executions.Targets.{resolve_targets, target_environment, snapshot_targets}
use vpstools.Executions.Create.{insert_targets}
use vpstools.Approvals.Request.{runbook_targets_allowed}
use vpstools.Automation.Run.{
  execute_scheduled_run, find_scheduled, rendered, is_risky, scheduled_tx,
}
use vpstools.Automation.Cycle.{run_due_schedules_once}
use vpstools.Automation.Paused.{is_paused, executions_of, targets_of, paused_org-kept}
use vpstools.Automation.Queued.{Queued, execute_scheduled_run-Queued}
use vpstools.Examples.World.{env}
use vpstools.Examples.Runbooks.{hostile}
use vpstools.Examples.Approvals.{outside, version, catalogue}

abbrev nightly : AutomationSchedule
nightly = record {
  id = "sch_1";
  organisation_id = "org_1";
  created_by_user_id = "user_1";
  name = "nightly";
  runbook_name = "restart";
  target = "server:web";
  reason = "routine";
  params = hostile;
  interval_seconds = pos 3600;
  next_run_at = 990;
  enabled = true;
  last_run_at = none;
  last_error = none;
}

-- The runbook with a risk that a schedule may have.
abbrev calm : Db
calm = record catalogue {
  runbook_versions = record version { risk_level = "medium" } ∷ [];
  automation_schedules = nightly ∷ [];
}

runs : (execute_scheduled_run env outside nightly calm).0 ≡ ok tt
unfolding execute_scheduled_run find_scheduled rendered is_risky scheduled_tx insert_targets
    runbook_targets_allowed environment_allowed resolve_targets target_environment snapshot_targets
    render_command validate_params check_known check_value check_values check_required check_tokens
    definitions_of defaults_of validate_parameter_value validate_type pieces lookup put render
    shell_quote record_execution_event write_audit_event_type latest_audit_hash find select exists
    ◌>>=◌
runs = refl

execute_scheduled_run-Queued_example :
    Queued env outside nightly calm (execute_scheduled_run env outside nightly calm).1
execute_scheduled_run-Queued_example = execute_scheduled_run-Queued env outside nightly calm runs

abbrev stopped : Db
stopped = record calm {
  automation_controls =
      record {
        organisation_id = "org_1";
        paused = true;
        paused_at = some 900;
        paused_by_user_id = some "user_1";
        reason = "incident";
      }
      ∷ [];
}

is_stopped : is_paused "org_1" stopped ≡ true
unfolding find
is_stopped = refl

paused_org-kept_example :
    (is_paused "org_1" (run_due_schedules_once env outside stopped).1 ≡ true)
    × (executions_of "org_1" (run_due_schedules_once env outside stopped).1
        ≡ executions_of "org_1" stopped)
    × (targets_of "org_1" (run_due_schedules_once env outside stopped).1
        ≡ targets_of "org_1" stopped)
paused_org-kept_example = paused_org-kept env outside "org_1" stopped is_stopped
