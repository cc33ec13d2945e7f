-- ===== src/Automation/Run.antt =====
-- executeScheduledRun (apps/api/automation.go). The errors are the texts that the schedule's row keeps.
use Prim.Native.String.{◌++◌ as text_append}
use vpstools.Base.{String, Bool, not, ◌&&◌, ◌||◌, Option, none, List, [], ◌∷◌, ◌++◌, ◌==◌, length}
use vpstools.Base.Int.{pos}
use vpstools.Base.Table.{find}
use vpstools.Store.Status.{queued}
use vpstools.Store.Scheduling.{AutomationSchedule}
use vpstools.Store.Catalogue.{RunbookRow, RunbookVersion, is_published}
use vpstools.Store.Rows.{Db, Execution, number, text}
use vpstools.Store.Action.{
  Action, Env, pure, raise, gets, or_raise, modify, refuse_if, on_error, transaction, ◌>>=◌, ◌>>◌,
}
use vpstools.Audit.{record_execution_event, write_audit_event_type}
use vpstools.Runbooks.Types.{Runbook, Checked, accepted, rejected}
use vpstools.Runbooks.Params.{ParamError}
use vpstools.Runbooks.Render.{render_command}
use vpstools.Runbooks.Validate.{environment_allowed}
use vpstools.Executions.Targets.{resolve_targets, target_environment, snapshot_targets}
use vpstools.Executions.Create.{execution_id, insert_targets}
use vpstools.Executions.Create.Handle.{is_nil}
use vpstools.Approvals.Request.{Outside, with_version, runbook_targets_allowed}
use vpstools.Approvals.Run.{timeout_of}

-- `automationActorID`.
abbrev pub automation_actor_id : String
automation_actor_id = "user_automation"

-- By name only, where handleRunRunbook also takes an id.
abbrev pub is_named : String → String → RunbookRow → Bool
is_named name org r = r.organisation_id == org && (r.name == name && is_published r.status)

unfoldable pub find_scheduled : AutomationSchedule → Db → Option (RunbookRow × RunbookVersion)
find_scheduled s db = with_version db (find (is_named s.runbook_name s.organisation_id) db.runbooks)

unfoldable pub rendered : Outside → Checked ParamError String → Action String String
rendered out (accepted command) = pure command
rendered out (rejected e) = raise (out.explain e)

abbrev pub scheduled_execution :
    Env → Outside → AutomationSchedule → RunbookVersion → Runbook → String → String → Execution
scheduled_execution env out s version rb environment command = record {
  id = execution_id env;
  organisation_id = s.organisation_id;
  actor_user_id = automation_actor_id;
  status = queued;
  environment = environment;
  risk_level = version.risk_level;
  reason = s.reason;
  command = command;
  command_preview = out.redact command;
  timeout_seconds = timeout_of rb.timeout_seconds;
  requested_at = env.now;
  started_at = none;
  finished_at = none;
  error_summary = none;
  approval_id = none;
}

unfoldable pub scheduled_tx :
    Env → AutomationSchedule → RunbookRow → Execution → List String → Action String (Unit {0})
scheduled_tx env s row e ids = do
  refuse_if (env.fails "insert execution") "insert execution"
  modify (λ db. record db { executions = db.executions ++ e ∷ [] })
  on_error (λ x. "insert execution target") (insert_targets env s.organisation_id ids)
  record_execution_event env s.organisation_id (execution_id env) "" none queued "automation.queued"
      (("schedule_id", text s.id) ∷ ("schedule_name", text s.name) ∷ [])
  write_audit_event_type env s.organisation_id automation_actor_id "automation"
      "automation.execution.queued" "execution" (execution_id env) "queued"
      (("schedule_id", text s.id)
        ∷ ("runbook_id", text row.id)
        ∷ ("target_count", number (pos (length ids)))
        ∷ [])
  refuse_if (env.fails "commit scheduled run") "commit scheduled run"

unfoldable pub is_risky : String → Bool
is_risky risk = risk == "high" || risk == "critical"

-- The error after the commit leaves the execution in place.
unfoldable pub execute_scheduled_run : Env → Outside → AutomationSchedule → Action String (Unit {0})
execute_scheduled_run env out s = do
  refuse_if (env.fails "find published runbook") "runbook is not published"
  found ← gets (find_scheduled s)
  (row, version) ← or_raise found "runbook is not published"
  refuse_if (is_risky version.risk_level)
      "high-risk schedules require an approval workflow and are not auto-executed"
  rb ← or_raise version.definition "invalid stored runbook definition"
  ids ← gets (resolve_targets env s.organisation_id s.target)
  refuse_if (is_nil ids) (text_append "no servers found for target " s.target)
  environment ← gets (target_environment env s.organisation_id ids)
  permitted ← gets (runbook_targets_allowed env s.organisation_id rb ids)
  refuse_if (environment.1 || (not (environment_allowed rb environment.0) || not permitted))
      "schedule target is not permitted"
  refuse_if (environment.0 == "production" && out.texts.trim s.reason == "")
      "production schedules require a reason"
  command ← rendered out (render_command out.texts rb s.params)
  snapshots ← gets (snapshot_targets env s.organisation_id ids)
  refuse_if (not snapshots) "failed to snapshot schedule targets"
  refuse_if (env.fails "begin scheduled run") "begin scheduled run"
  transaction
      (scheduled_tx env s row (scheduled_execution env out s version rb environment.0 command) ids)
  refuse_if (env.fails "publish notifications")
      "execution committed but JetStream notification publication was incomplete"
