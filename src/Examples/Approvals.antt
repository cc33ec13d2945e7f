-- ===== src/Examples/Approvals.antt =====
-- Runs of runbooks and approvals at concrete inputs.
use vpstools.Base.{◌≡◌, refl, false, some, none, [], ◌∷◌, arith, ◌==◌}
use vpstools.Base.Int.{pos}
use vpstools.Base.Assoc.{lookup, put}
use vpstools.Base.Table.{find, select, exists, update, count}
use vpstools.Store.Catalogue.{RunbookRow, RunbookVersion, ApprovalRequest, published, waiting}
use vpstools.Store.Rows.{Db}
use vpstools.Store.Action.{ok, ◌>>=◌}
use vpstools.Authz.{is_senior}
use vpstools.Audit.{record_execution_event, write_audit_event_tx, latest_audit_hash}
use vpstools.Runbooks.Values.{validate_type, validate_parameter_value}
use vpstools.Runbooks.Validate.{environment_allowed}
use vpstools.Runbooks.Params.{
  pieces, check_known, check_value, check_values, check_required, check_tokens, definitions_of,
  defaults_of, validate_params,
}
use vpstools.Runbooks.Render.{render, render_command, shell_quote}
use vpstools.Runners.Reply.{approval_granted, raw}
use vpstools.Executions.Targets.{resolve_targets, target_environment, snapshot_targets}
use vpstools.Executions.Create.{insert_targets}
use vpstools.Approvals.Request.{
  RunRequest, Outside, find_published, role_allowed_in_list, runbook_targets_allowed,
  requires_approval,
}
use vpstools.Approvals.Plan.{Plan, make_plan, rendered}
use vpstools.Approvals.Run.{
  carry_out, request_approval, approval_tx, commit_or_replay, settle_conflict, needs, run_new,
}
use vpstools.Approvals.Decide.{
  approve, approve_tx, handle_approve, create_execution_from_approval, find_request,
}
use vpstools.Approvals.Settled.{IsSettled}
use vpstools.Approvals.Settled.Reach
use vpstools.Approvals.Settled.Reach.{Reaches-IsSettled}
use vpstools.Approvals.Granted.{Granted, approval-Granted}
use vpstools.Approvals.Planned.{IsPlanned}
use vpstools.Approvals.Outcome.{Outcome, run_new-Outcome}
use vpstools.Catalogue.Handle.{handle_archive_runbook}
use vpstools.Catalogue.Immutable
use vpstools.Catalogue.Immutable.{Extends, Reaches-Extends}
use vpstools.Examples.World.{env, owner, db}
use vpstools.Examples.Runbooks.{texts, restart, hostile}

abbrev pub outside : Outside
outside = record {
  texts = texts;
  redact = λ s. s;
  explain = λ e. "";
  payload_hash = λ n q. n;
  parse_roles = λ raw. some ("owner" ∷ []);
  equal_fold = λ a b. a == b;
  approval_expiry = pos 0;
  awaiting_body = λ id. id;
  queued_body = λ id n. id;
}

abbrev requested : ApprovalRequest
requested = record {
  id = "apr_1";
  organisation_id = "org_1";
  requester_user_id = "user_2";
  approver_user_id = none;
  status = waiting;
  risk_level = "high";
  reason = "patch";
  target_id = "server:web";
  request_payload = some record {
    command = "uptime";
    runbook_id = "rbk_1";
    target_ids = "srv_1" ∷ [];
    environment = "staging";
    timeout = pos 60;
  };
  expires_at = some 2000;
  decided_at = none;
  decision_note = none;
}

abbrev pub row : RunbookRow
row = record {
  id = "rbk_1";
  organisation_id = "org_1";
  name = "restart";
  title = "Restart";
  description = "";
  status = published;
  current_version_id = some "rbv_1";
  created_by_user_id = "user_1";
}

abbrev pub version : RunbookVersion
version = record {
  id = "rbv_1";
  organisation_id = "org_1";
  runbook_id = "rbk_1";
  version = pos 1;
  status = published;
  risk_level = "high";
  allowed_roles = "[\"owner\"]";
  definition = some restart;
  command_preview = restart.command;
  created_by_user_id = "user_1";
  published_by_user_id = some "user_1";
  published_at = some 10;
}

abbrev pub catalogue : Db
catalogue = record db {
  runbooks = row ∷ [];
  runbook_versions = version ∷ [];
  approvals = requested ∷ [];
  memberships =
      record {
        organisation_id = "org_1";
        user_id = "user_2";
        role = "junior_engineer";
        status = "active";
      }
      ∷ [];
}

catalogue_settled : IsSettled catalogue
unfolding count
catalogue_settled id = (ground arith, ground arith)

Reaches-IsSettled_example : IsSettled (handle_approve env outside owner "apr_1" "fine" catalogue).1
Reaches-IsSettled_example =
    Reaches-IsSettled catalogue_settled
      (Reach.next Reach.here (Reach.approval env outside owner "apr_1" "fine"))

approves :
    (approve env outside owner "apr_1" "fine" catalogue).0
    ≡ ok (approval_granted "exe_new:execution")
unfolding approve approve_tx find_request create_execution_from_approval insert_targets
    record_execution_event write_audit_event_tx latest_audit_hash is_senior find select exists
    update count ◌>>=◌
approves = refl

approval-Granted_example :
    Granted env outside owner "apr_1" "fine" catalogue
      (approve env outside owner "apr_1" "fine" catalogue).1
approval-Granted_example =
    approval-Granted env outside owner "apr_1" "fine" catalogue
      (approval_granted "exe_new:execution") approves

abbrev asks : RunRequest
asks = record { target = "server:web"; reason = "patch"; params = hostile; dry_run = false }

runs :
    (run_new env outside owner "restart" asks "" "h" catalogue).0 ≡ ok (raw 202 "apr_new:approval")
unfolding run_new make_plan carry_out request_approval approval_tx commit_or_replay settle_conflict
    rendered needs find_published role_allowed_in_list runbook_targets_allowed requires_approval
    environment_allowed resolve_targets target_environment snapshot_targets render_command
    validate_params check_known check_value check_values check_required check_tokens definitions_of
    defaults_of validate_parameter_value validate_type pieces lookup put render shell_quote
    write_audit_event_tx latest_audit_hash find select exists ◌>>=◌
runs = refl

run_new-Outcome_example :
    (p : Plan) × IsPlanned env outside owner "restart" asks catalogue p
    × Outcome env outside owner catalogue p
        (run_new env outside owner "restart" asks "" "h" catalogue).1
run_new-Outcome_example =
    run_new-Outcome env outside owner "restart" asks "" "h" catalogue (raw 202 "apr_new:approval")
      runs

Reaches-Extends_example :
    Extends (version ∷ []) (handle_archive_runbook env owner "restart" catalogue).1.runbook_versions
Reaches-Extends_example =
    Reaches-Extends (Immutable.next Immutable.here (Immutable.archive env owner "restart"))
