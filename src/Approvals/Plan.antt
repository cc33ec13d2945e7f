-- ===== src/Approvals/Plan.antt =====
-- The checks of handleRunRunbook, before it asks for approval or starts the execution
-- (apps/api/runbooks.go).
use Prim.Native.String.{◌++◌ as text_append}
use vpstools.Base.{String, not, ◌&&◌, List, ◌==◌}
use vpstools.Store.Catalogue.{RunbookRow, RunbookVersion}
use vpstools.Store.Action.{Action, Env, pure, raise, gets, or_raise, refuse_if, when, ◌>>=◌, ◌>>◌}
use vpstools.Authz.{Actor, deny}
use vpstools.Runbooks.Types.{Runbook, Checked, accepted, rejected}
use vpstools.Runbooks.Params.{ParamError}
use vpstools.Runbooks.Render.{render_command}
use vpstools.Runbooks.Validate.{environment_allowed}
use vpstools.Runners.Denial.{write_denial}
use vpstools.Runners.Reply.{Reply, failure}
use vpstools.Executions.Targets.{resolve_targets, target_environment, snapshot_targets}
use vpstools.Executions.Create.Handle.{is_nil}
use vpstools.Approvals.Request.{
  RunRequest, Outside, find_published, role_allowed_in_list, runbook_targets_allowed,
}

-- What the checks have settled: the request and its key, the runbook, the targets and the command.
pub record Plan : Type 0 where
  pub request : RunRequest
  pub key : String
  pub hash : String
  pub runbook : RunbookRow
  pub version : RunbookVersion
  pub definition : Runbook
  pub ids : List String
  pub environment : String
  pub command : String

unfoldable pub rendered : Outside → Checked ParamError String → Action Reply String
rendered out (accepted command) = pure command
rendered out (rejected e) = raise (failure 400 (out.explain e))

-- The checks, for a request that is no repetition.
unfoldable pub make_plan :
    Env → Outside → Actor → String → RunRequest → String → String → Action Reply Plan
make_plan env out actor name q key hash = do
  refuse_if (env.fails "find published runbook") (failure 404 "runbook not found or not published")
  found ← gets (find_published name actor.organisation_id)
  (row, version) ← or_raise found (failure 404 "runbook not found or not published")
  refuse_if (row.id == "") (failure 404 "runbook not found or not published")
  when (not (role_allowed_in_list out actor.role version.allowed_roles)) (
      write_denial env actor "runbook.executed" "runbook" row.id (
        deny "runbook_not_permitted"
          "This runbook is not permitted for your role. Use 'vps runbook list' to see permitted runbooks."))
  definition ← or_raise version.definition (failure 500 "invalid stored runbook definition")
  ids ← gets (resolve_targets env actor.organisation_id q.target)
  refuse_if (is_nil ids) (failure 400 (text_append "no servers found for target: " q.target))
  environment ← gets (target_environment env actor.organisation_id ids)
  refuse_if environment.1
      (failure 400 "targets span multiple environments; submit one environment at a time")
  permitted ← gets (runbook_targets_allowed env actor.organisation_id definition ids)
  when (not (environment_allowed definition environment.0 && permitted)) (
      write_denial env actor "runbook.executed" "runbook" row.id (
        deny "runbook_target_not_permitted"
          "This runbook is not permitted for the selected target."))
  command ← rendered out (render_command out.texts definition q.params)
  refuse_if (command == "") (failure 400 "runbook rendered an empty command")
  snapshots ← gets (snapshot_targets env actor.organisation_id ids)
  refuse_if (not snapshots) (failure 500 "failed to snapshot selected targets")
  pure record {
    request = q;
    key = key;
    hash = hash;
    runbook = row;
    version = version;
    definition = definition;
    ids = ids;
    environment = environment.0;
    command = command;
  }
