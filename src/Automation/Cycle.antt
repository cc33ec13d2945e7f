-- ===== src/Automation/Cycle.antt =====
-- runDueSchedulesOnce (apps/api/automation.go). The clock of the cycle is one. NextAfter is that of
-- Schedule, on as much fuel as the clock counts and two rounds more; where the interval overflows and
-- it never returns, the cycle ends with an error in its place.
use Prim.Native.String.{◌++◌ as text_append}
use vpstools.Base.{
  ℕ, zero, suc, ◌+◌, ◌*◌, ◌/◌, String, Bool, true, false, ◌&&◌, Option, none, some, List, [], ◌∷◌,
  ◌==◌, eqb, leb, ltb, if◌then◌else◌,
}
use vpstools.Base.Table.{select, update, count}
use vpstools.Store.Scheduling.{AutomationSchedule}
use vpstools.Store.Rows.{Db}
use vpstools.Store.Action.{
  Action, Env, Result, ok, err, pure, gets, or_raise, modify, refuse_if, ◌>>=◌, ◌>>◌,
}
use vpstools.Schedule.{Schedule, next_after, second}
use vpstools.Queue.Reconcile.{distinct}
use vpstools.Approvals.Request.{Outside}
use vpstools.Automation.Control.{automation_paused}
use vpstools.Automation.Run.{execute_scheduled_run}

-- `enabled = 1 AND next_run_at <= now`
abbrev pub is_due : ℕ → AutomationSchedule → Bool
is_due now s = s.enabled && leb s.next_run_at now

abbrev pub may_claim : String → ℕ → AutomationSchedule → Bool
may_claim id now s = s.id == id && is_due now s

unfoldable insert_due : AutomationSchedule → List AutomationSchedule → List AutomationSchedule
insert_due s [] = s ∷ []
insert_due s (x ∷ l) =
    let rest = insert_due s l in if ltb x.next_run_at s.next_run_at then x ∷ rest else s ∷ x ∷ l

unfoldable order_due : List AutomationSchedule → List AutomationSchedule
unfolding insert_due
order_due [] = []
order_due (s ∷ l) = insert_due s (order_due l)

unfoldable first : {A : Type 0} → ℕ → List A → List A
first zero l = []
first (suc n) [] = []
first (suc n) (x ∷ l) = x ∷ first n l

-- ORDER BY next_run_at LIMIT 20.
unfoldable pub due_schedules : ℕ → Db → List AutomationSchedule
unfolding order_due first
due_schedules now db = first 20 (order_due (select (is_due now) db.automation_schedules))

organisations : List AutomationSchedule → List String
organisations [] = []
organisations (s ∷ l) = s.organisation_id ∷ organisations l

unfoldable pub due_organisations : ℕ → Db → List String
unfolding organisations
due_organisations now db = distinct (organisations (select (is_due now) db.automation_schedules))

-- The map `pausedOrgs`, as the organisations that it holds true.
unfoldable pub read_paused : Env → List String → Action String (List String)
read_paused env [] = pure []
read_paused env (org ∷ orgs) = do
  paused ← automation_paused "read automation status" env org
  rest ← read_paused env orgs
  pure (if paused then org ∷ rest else rest)

unfoldable pub has : String → List String → Bool
has x [] = false
has x (y ∷ l) = if y == x then true else has x l

abbrev is_empty : List String → Bool
is_empty [] = true
is_empty (x ∷ l) = false

abbrev as_schedule : AutomationSchedule → Schedule
as_schedule s = record {
  id = s.id;
  organisation_id = s.organisation_id;
  created_by_user_id = s.created_by_user_id;
  name = s.name;
  runbook_name = s.runbook_name;
  target = s.target;
  reason = s.reason;
  params = s.params;
  interval_seconds = s.interval_seconds;
  next_run_at = s.next_run_at * second;
  enabled = true;
}

-- Each run draws identifiers of its own.
abbrev pub run_env : Env → AutomationSchedule → Env
run_env env s = record env { fresh = λ purpose. env.fresh (text_append s.id purpose) }

abbrev error_of : Result String (Unit {0}) → Option String
error_of (ok u) = none
error_of (err e) = some e

-- Run an action and look at its error.
unfoldable pub caught : Action String (Unit {0}) → Action String (Option String)
caught m db = let (r, db') = m db in (ok (error_of r), db')

unfoldable pub store_error : Env → AutomationSchedule → Option String → Action String (Unit {0})
store_error env s none = pure tt
store_error env s (some e) = do
  refuse_if (env.fails "store schedule error") "store schedule error"
  modify (λ db. record db {
    automation_schedules =
        update (λ x. x.id == s.id) (λ x. record x { last_error = some e }) db.automation_schedules;
  })

unfoldable pub run_claimed : Env → Outside → AutomationSchedule → Action String (Unit {0})
run_claimed env out s = do
  error ← caught (execute_scheduled_run (run_env env s) out s)
  store_error env s error

-- The update that takes the run, for which another process may have been faster.
unfoldable pub claim_schedule : Env → Outside → AutomationSchedule → Action String (Unit {0})
claim_schedule env out s = do
  next ←
      or_raise (next_after (env.now * second + 2) (as_schedule s) (env.now * second)) "no next run"
  refuse_if (env.fails "claim schedule") "claim schedule"
  n ← gets (λ db. count (may_claim s.id env.now) db.automation_schedules)
  modify (λ db. record db {
    automation_schedules =
        update (may_claim s.id env.now)
          (λ x. record x {
            next_run_at = next / second;
            last_run_at = some env.now;
            last_error = none;
          })
          db.automation_schedules;
  })
  if eqb n 0 then pure tt else run_claimed env out s

unfoldable pub unless_paused : Env → Outside → AutomationSchedule → Bool → Action String (Unit {0})
unless_paused env out s true = pure tt
unless_paused env out s false = claim_schedule env out s

unfoldable pub run_due : Env → Outside → List String → AutomationSchedule → Action String (Unit {0})
run_due env out paused_orgs s = if has s.organisation_id paused_orgs then pure tt else do
  paused ← automation_paused "read automation status" env s.organisation_id
  unless_paused env out s paused

unfoldable pub run_each :
    Env → Outside → List String → List AutomationSchedule → Action String (Unit {0})
run_each env out paused_orgs [] = pure tt
run_each env out paused_orgs (s ∷ l) = do
  run_due env out paused_orgs s
  run_each env out paused_orgs l

unfoldable pub run_due_schedules_once : Env → Outside → Action String (Unit {0})
run_due_schedules_once env out = do
  refuse_if (env.fails "list due organisations") "list due organisations"
  orgs ← gets (due_organisations env.now)
  paused_orgs ← read_paused env orgs
  if is_empty orgs then pure tt else do
    refuse_if (env.fails "read due schedules") "read due schedules"
    due ← gets (due_schedules env.now)
    run_each env out paused_orgs due
