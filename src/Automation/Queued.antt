-- ===== src/Automation/Queued.antt =====
-- What a scheduled run needs and does (apps/api/automation.go).
use vpstools.Base.{
  ◌≡◌, refl, ap, String, Bool, true, false, not, ◌&&◌, ◌||◌, some, List, [], ◌∷◌, ◌++◌, map, arith,
  ◌==◌,
}
use vpstools.Store.Scheduling.{AutomationSchedule}
use vpstools.Store.Catalogue.{RunbookRow, RunbookVersion, ApprovalRequest}
use vpstools.Store.Rows.{Db, Execution, Target, Metadata}
use vpstools.Store.Action.{Action, Env, ok, transaction, ◌>>=◌}
use vpstools.Store.Keeps.{Keeps, keeps_rules}
use vpstools.Store.Ends.{Ends, Ends-then, Ends-modify, Ends-transaction}
use vpstools.Store.Paths.{
  past_refuse, past_or_raise, past_read, Ends-kept_to, Ends-on_error, Ends-from,
}
use vpstools.Audit.{write_audit_event_type}
use vpstools.Runbooks.Types.{Runbook, Checked, accepted, rejected}
use vpstools.Runbooks.Params.{ParamError}
use vpstools.Runbooks.Render.{render_command}
use vpstools.Runbooks.Validate.{environment_allowed}
use vpstools.Executions.Create.{new_target}
use vpstools.Executions.Create.Handle.{is_nil}
use vpstools.Executions.Targets.{resolve_targets, target_environment}
use vpstools.Approvals.Request.{Outside, runbook_targets_allowed}
use vpstools.Approvals.Granted.{Frame, logged, event_kept, insert_targets-adds}
use vpstools.Automation.Run.{
  find_scheduled, rendered, is_risky, scheduled_execution, scheduled_tx, execute_scheduled_run,
}

-- What a run that succeeded has found in the tables before it, and added to them.
pub record Queued (env : Env) (out : Outside) (s : AutomationSchedule) (before after : Db)
    : Type 0 where
  pub row : RunbookRow
  pub version : RunbookVersion
  pub definition : Runbook
  pub ids : List String
  pub environment : String
  pub command : String
  -- published under that name in the organisation, with this current version
  pub published : find_scheduled s before ≡ some (row, version)
  pub not_risky : is_risky version.risk_level ≡ false
  pub defined : version.definition ≡ some definition
  pub named : resolve_targets env s.organisation_id s.target before ≡ ids
  pub not_empty : is_nil ids ≡ false
  pub one_environment : target_environment env s.organisation_id ids before ≡ (environment, false)
  pub environment_fits : environment_allowed definition environment ≡ true
  pub targets_fit : runbook_targets_allowed env s.organisation_id definition ids before ≡ true
  pub reasoned : (environment == "production" && out.texts.trim s.reason == "") ≡ false
  pub rendering : render_command out.texts definition s.params ≡ accepted command
  pub added :
      Frame
        (before.executions
          ++ scheduled_execution env out s version definition environment command ∷ [])
        (before.targets ++ map (new_target env s.organisation_id) ids)
        before.approvals
        after

module _ {P : Db → Type 0} {Q : Unit {0} → Db → Type 0} where
  past_rendered :
      (out : Outside) (c : Checked ParamError String) (k : String → Action String (Unit {0}))
      → ((command : String) → c ≡ accepted command → Ends P (k command) Q)
      → Ends P (rendered out c >>= k) Q
  unfolding rendered ◌>>=◌
  past_rendered out (accepted command) k h = record { run = (h command refl).run }
  past_rendered out (rejected e) k h = record { run = λ db p a f. cc f }

passed_all :
    (a b c : Bool) → (a || (not b || not c)) ≡ false → (a ≡ false) × (b ≡ true) × (c ≡ true)
passed_all a b c h = ground arith

module _ (env : Env) (out : Outside) (s : AutomationSchedule) where
  audit_type_kept :
      (es : List Execution) (ts : List Target) (qs : List ApprovalRequest)
      (org user type action target_type target result : String) (metadata : Metadata)
      → Keeps
          (Frame es ts qs)
          (write_audit_event_type env org user type action target_type target result metadata)
  unfolding write_audit_event_type
  audit_type_kept es ts qs org user type action target_type target result metadata =
      search (keeps_rules, logged)

  scheduled_tx-adds :
      (row : RunbookRow) (e : Execution) (ids : List String) (es : List Execution)
      (ts : List Target) (qs : List ApprovalRequest)
      → Ends
          (Frame es ts qs)
          (scheduled_tx env s row e ids)
          (λ u. Frame (es ++ e ∷ []) (ts ++ map (new_target env s.organisation_id) ids) qs)
  unfolding scheduled_tx
  scheduled_tx-adds row e ids es ts qs = past_refuse _ _ _ (λ fine.
      Ends-then _ _
        (Ends-modify {Q = Frame (es ++ e ∷ []) ts qs} _
          (λ db h. (ap (λ l. l ++ e ∷ []) h.0, h.1, h.2)))
        (λ u. Ends-then _ _ (Ends-on_error _ _ (insert_targets-adds env _ _ _ _ _)) (λ v.
          Ends-kept_to _ (search (keeps_rules, event_kept, audit_type_kept) depth 20) (λ db h. h))))

  stores :
      (before : Db) (row : RunbookRow) (e : Execution) (ids : List String)
      → Ends
          (λ db. db ≡ before)
          (transaction (scheduled_tx env s row e ids))
          (λ u.
            Frame
              (before.executions ++ e ∷ [])
              (before.targets ++ map (new_target env s.organisation_id) ids)
              before.approvals)
  stores before row e ids = Ends-transaction _ (
      Ends-from _
        (λ db same.
          (ap (λ d. d.executions) same, ap (λ d. d.targets) same, ap (λ d. d.approvals) same))
        (scheduled_tx-adds row e ids before.executions before.targets before.approvals))

  run-Queued :
      (before : Db)
      → Ends (λ db. db ≡ before) (execute_scheduled_run env out s) (λ u. Queued env out s before)
  unfolding execute_scheduled_run
  run-Queued before = past_refuse _ _ _ (λ fine. past_read _ _ (
      past_or_raise _ _ _ (λ (row, version) found. past_refuse _ _ _ (λ not_risky.
        past_or_raise _ _ _ (λ definition defined. past_read _ _ (
          past_refuse _ _ _ (λ not_empty. past_read _ _ (
            past_read _ _ (
              past_refuse _ _ _ (λ fits. past_refuse _ _ _ (λ reasoned.
                past_rendered _ _ _ (λ command rendering. past_read _ _ (
                  past_refuse _ _ _ (λ taken. past_refuse _ _ _ (λ begun.
                    Ends-then _ _ (stores before row _ _) (λ u.
                      Ends-kept_to _ (search keeps_rules) (λ db f. record {
                        row = row;
                        version = version;
                        definition = definition;
                        ids = resolve_targets env s.organisation_id s.target before;
                        environment =
                            (target_environment env s.organisation_id
                              (resolve_targets env s.organisation_id s.target before) before).0;
                        command = command;
                        published = found;
                        not_risky = not_risky;
                        defined = defined;
                        named = refl;
                        not_empty = not_empty;
                        one_environment =
                            ap
                              (λ b. (
                                (target_environment env s.organisation_id
                                    (resolve_targets env s.organisation_id s.target before)
                                    before).0,
                                b,
                              ))
                              (passed_all _ _ _ fits).0;
                        environment_fits = (passed_all _ _ _ fits).1;
                        targets_fit = (passed_all _ _ _ fits).2;
                        reasoned = reasoned;
                        rendering = rendering;
                        added = f;
                      })))))))))))))))))

-- A scheduled run that succeeds found its runbook published in the schedule's organisation, of neither
-- high nor critical risk, and at least one server of one environment, on which the runbook is allowed;
-- in production the schedule has a reason. It adds one execution with the command rendered from the
-- schedule's parameters, by the automation's user, and a target for each server, and no request.
pub execute_scheduled_run-Queued :
    (env : Env) (out : Outside) (s : AutomationSchedule) (db : Db)
    → (execute_scheduled_run env out s db).0 ≡ ok tt
    → Queued env out s db (execute_scheduled_run env out s db).1
execute_scheduled_run-Queued env out s db h = (run-Queued env out s db).run db refl tt h
