-- ===== src/Automation/Control.antt =====
-- The pause of an organisation and its schedules: readAutomationControl, automationPaused,
-- handlePauseAutomation, handleResumeAutomation, handleCreateSchedule and handleDisableSchedule
-- (apps/api/automation.go). `parse_time` is time.Parse of RFC 3339, in nanoseconds as in Schedule; a row
-- holds whole seconds, as formatScheduleTime writes them.
use vpstools.Base.{
  ℕ, ◌*◌, ◌/◌, String, Bool, true, false, not, ◌&&◌, ◌||◌, Option, none, some, List, [], ◌∷◌, ◌++◌,
  ◌==◌, eqb, if◌then◌else◌,
}
use vpstools.Base.Int.{ℤ, pos, negsuc}
use vpstools.Base.Table.{find, update, count, exists}
use vpstools.Store.Scheduling.{AutomationControl, AutomationSchedule}
use vpstools.Store.Rows.{Db, number, text}
use vpstools.Store.Action.{Action, Env, pure, gets, or_raise, modify, refuse_if, when, ◌>>=◌, ◌>>◌}
use vpstools.Authz.{Actor, Decision, deny, is_senior}
use vpstools.Audit.{write_audit_event}
use vpstools.Runners.Denial.{write_denial}
use vpstools.Runners.Reply.{Reply, failure, status, automation, scheduled, respond}
use vpstools.Schedule.{
  Schedule, ScheduleError, name_required, runbook_name_required, target_required,
  interval_too_short, next_run_time_required, validate, second, seconds, add,
}

abbrev pub of_org : String → AutomationControl → Bool
of_org org c = c.organisation_id == org

abbrev pub paused_by : Option AutomationControl → Bool
paused_by none = false
paused_by (some c) = c.paused

-- `readAutomationControl`: an organisation without a row is not paused.
unfoldable pub automation_paused : {E : Type 0} → E → Env → String → Action E Bool
automation_paused e env org = do
  refuse_if (env.fails "read automation status") e
  found ← gets (λ db. find (of_org org) db.automation_controls)
  pure (paused_by found)

-- INSERT … ON CONFLICT(organisation_id) DO UPDATE.
unfoldable pub upsert :
    AutomationControl
    → (AutomationControl → AutomationControl)
    → List AutomationControl
    → List AutomationControl
upsert row f l =
    if exists (of_org row.organisation_id) l
    then update (of_org row.organisation_id) f l
    else l ++ row ∷ []

abbrev automation_requires_senior : Decision
automation_requires_senior =
    deny "automation_requires_senior" "Pausing automation requires senior engineer or above."

-- The body is its reason, `none` when it does not decode; an empty body has an empty reason.
unfoldable pub handle_pause_automation :
    Env → (String → String) → Actor → Option String → Db → Reply × Db
unfolding respond ◌>>=◌ upsert
handle_pause_automation env trim actor body = respond (do
  let org = actor.organisation_id
  when (not (is_senior actor))
      (write_denial env actor "automation.paused" "organisation" org automation_requires_senior)
  reason ← or_raise body (failure 400 "invalid request body")
  refuse_if (env.fails "failed to pause automation") (failure 500 "failed to pause automation")
  modify (λ db. record db {
    automation_controls =
        upsert
          record {
            organisation_id = org;
            paused = true;
            paused_at = some env.now;
            paused_by_user_id = some actor.user_id;
            reason = trim reason;
          }
          (λ c. record c {
            paused = true;
            paused_at = some env.now;
            paused_by_user_id = some actor.user_id;
            reason = trim reason;
          })
          db.automation_controls;
  })
  write_audit_event env org actor.user_id "automation.paused" "organisation" org "success"
      (("reason", text (trim reason)) ∷ [])
  pure (automation true (trim reason)))

-- A resumed organisation keeps the time and the author of its last pause.
unfoldable pub handle_resume_automation : Env → Actor → Db → Reply × Db
unfolding respond ◌>>=◌ upsert
handle_resume_automation env actor = respond (do
  let org = actor.organisation_id
  when (not (is_senior actor)) (
      write_denial env actor "automation.resumed" "organisation" org (
        deny "automation_requires_senior" "Resuming automation requires senior engineer or above."))
  refuse_if (env.fails "failed to resume automation") (failure 500 "failed to resume automation")
  modify (λ db. record db {
    automation_controls =
        upsert
          record {
            organisation_id = org;
            paused = false;
            paused_at = none;
            paused_by_user_id = none;
            reason = "";
          }
          (λ c. record c { paused = false; reason = "" }) db.automation_controls;
  })
  write_audit_event env org actor.user_id "automation.resumed" "organisation" org "success" []
  pure (automation false ""))

pub record ScheduleRequest : Type 0 where
  pub name : String
  pub runbook_name : String
  pub target : String
  pub reason : String
  pub params : List (String × String)
  pub interval_seconds : ℤ
  pub next_run_at : String

abbrev message : ScheduleError → String
message name_required = "schedule name is required"
message runbook_name_required = "runbook name is required"
message target_required = "target is required"
message interval_too_short = "interval must be at least 60 seconds"
message next_run_time_required = "next run time is required"

-- Now and the interval; one that is negative is refused by Validate.
abbrev after_interval : Env → ℤ → ℕ
after_interval env (pos n) = add (env.now * second) (seconds n)
after_interval env (negsuc n) = env.now * second

abbrev first_run : Env → (String → String) → (String → Option ℕ) → ScheduleRequest → Option ℕ
first_run env trim parse_time q =
    if trim q.next_run_at == ""
    then some (after_interval env q.interval_seconds)
    else parse_time q.next_run_at

abbrev requested : Actor → ScheduleRequest → ℕ → Schedule
requested actor q next = record {
  id = "";
  organisation_id = actor.organisation_id;
  created_by_user_id = actor.user_id;
  name = q.name;
  runbook_name = q.runbook_name;
  target = q.target;
  reason = q.reason;
  params = q.params;
  interval_seconds = q.interval_seconds;
  next_run_at = next;
  enabled = true;
}

abbrev new_schedule : Env → Actor → ScheduleRequest → ℕ → AutomationSchedule
new_schedule env actor q next = record {
  id = env.fresh "schedule";
  organisation_id = actor.organisation_id;
  created_by_user_id = actor.user_id;
  name = q.name;
  runbook_name = q.runbook_name;
  target = q.target;
  reason = q.reason;
  params = q.params;
  interval_seconds = q.interval_seconds;
  next_run_at = next / second;
  enabled = true;
  last_run_at = none;
  last_error = none;
}

abbrev invalid : Option ScheduleError → Action Reply (Unit {0})
invalid none = pure tt
invalid (some e) = refuse_if true (failure 400 (message e))

-- UNIQUE(organisation_id, name), and the primary key.
abbrev taken : Env → Actor → ScheduleRequest → AutomationSchedule → Bool
taken env actor q s =
    s.id == env.fresh "schedule" || (s.organisation_id == actor.organisation_id && s.name == q.name)

unfoldable pub handle_create_schedule :
    Env → (String → String) → (String → Option ℕ) → Actor → Option ScheduleRequest → Db → Reply × Db
unfolding respond ◌>>=◌
handle_create_schedule env trim parse_time actor body = respond (do
  when (not (is_senior actor)) (
      write_denial env actor "automation.schedule.created" "automation_schedule" ""
        (deny "schedule_requires_senior" "Creating schedules requires senior engineer or above."))
  q ← or_raise body (failure 400 "invalid request body")
  next ← or_raise (first_run env trim parse_time q) (failure 400 "next_run_at must be RFC3339")
  invalid (validate trim (requested actor q next))
  known ← gets (λ db. exists (taken env actor q) db.automation_schedules)
  refuse_if (env.fails "create schedule" || known)
      (failure 409 "schedule name already exists or could not be created")
  modify (λ db. record db {
    automation_schedules = db.automation_schedules ++ new_schedule env actor q next ∷ [];
  })
  write_audit_event env actor.organisation_id actor.user_id "automation.schedule.created"
      "automation_schedule" q.name "success"
      (("runbook", text q.runbook_name)
        ∷ ("target", text q.target)
        ∷ ("interval_seconds", number q.interval_seconds)
        ∷ [])
  pure (scheduled q.name (next / second)))

abbrev is_schedule : String → String → AutomationSchedule → Bool
is_schedule id org s = s.id == id && s.organisation_id == org

unfoldable pub handle_disable_schedule : Env → Actor → String → Db → Reply × Db
unfolding respond ◌>>=◌
handle_disable_schedule env actor id = respond (do
  when (not (is_senior actor)) (
      write_denial env actor "automation.schedule.disabled" "automation_schedule" id
        (deny "schedule_requires_senior" "Changing schedules requires senior engineer or above."))
  refuse_if (env.fails "failed to disable schedule") (failure 500 "failed to disable schedule")
  n ← gets (λ db. count (is_schedule id actor.organisation_id) db.automation_schedules)
  modify (λ db. record db {
    automation_schedules =
        update (is_schedule id actor.organisation_id) (λ s. record s { enabled = false })
          db.automation_schedules;
  })
  refuse_if (eqb n 0) (failure 404 "schedule not found")
  write_audit_event env actor.organisation_id actor.user_id "automation.schedule.disabled"
      "automation_schedule" id "success" []
  pure (status 200 "disabled"))
