-- ===== src/Automation/Kept.antt =====
-- What a cycle of the scheduler keeps of the tables: whatever each of its runs keeps
-- (apps/api/automation.go).
use vpstools.Base.{String, Bool, true, false, Option, none, some, List, [], ◌∷◌}
use vpstools.Store.Scheduling.{AutomationSchedule}
use vpstools.Store.Rows.{Db}
use vpstools.Store.Action.{Action, Env, modify}
use vpstools.Store.Keeps.{Keeps, Keeps-bind, Keeps-if, Keeps-pure, keeps_rules}
use vpstools.Runbooks.Types.{Checked, accepted, rejected}
use vpstools.Runbooks.Params.{ParamError}
use vpstools.Approvals.Request.{Outside}
use vpstools.Automation.Control.{automation_paused}
use vpstools.Automation.Run.{rendered, execute_scheduled_run}
use vpstools.Automation.Cycle.{
  run_env, caught, store_error, run_claimed, claim_schedule, unless_paused, run_due, run_each,
  read_paused, run_due_schedules_once,
}

module _ {P : Db → Type 0} where
  pub rendered-Keeps : (out : Outside) (c : Checked ParamError String) → Keeps P (rendered out c)
  unfolding rendered
  rendered-Keeps out (accepted command) = search keeps_rules
  rendered-Keeps out (rejected e) = search keeps_rules

  caught-Keeps : (m : Action String (Unit {0})) → Keeps P m → Keeps P (caught m)
  unfolding caught
  caught-Keeps m km = record { run = km.run }

  pub automation_paused-Keeps : (env : Env) (e own : String) → Keeps P (automation_paused e env own)
  unfolding automation_paused
  automation_paused-Keeps env e own = search keeps_rules

  read_paused-Keeps : (env : Env) (orgs : List String) → Keeps P (read_paused env orgs)
  unfolding read_paused
  read_paused-Keeps env [] = search keeps_rules
  read_paused-Keeps env (o ∷ orgs) =
      Keeps-bind _ _ (automation_paused-Keeps env _ o)
        (λ p. Keeps-bind _ _ (read_paused-Keeps env orgs) (λ r. search keeps_rules))

  module _ (env : Env) (out : Outside) where
    run_each-Keeps :
        (paused_orgs : List String) (l : List AutomationSchedule)
        → ((s : AutomationSchedule) → Keeps P (run_due env out paused_orgs s))
        → Keeps P (run_each env out paused_orgs l)
    unfolding run_each
    run_each-Keeps paused_orgs [] each = search keeps_rules
    run_each-Keeps paused_orgs (s ∷ l) each =
        Keeps-bind _ _ (each s) (λ u. run_each-Keeps paused_orgs l each)

    pub cycle-Keeps :
        ((paused_orgs : List String) (s : AutomationSchedule)
          → Keeps P (run_due env out paused_orgs s))
        → Keeps P (run_due_schedules_once env out)
    unfolding run_due_schedules_once
    cycle-Keeps each = search (keeps_rules, read_paused-Keeps, run_each-Keeps, each) depth 20

    module _ (s : AutomationSchedule)
        (schedules : (f : Db → List AutomationSchedule)
          → Keeps {E = String} P (modify (λ db. record db { automation_schedules = f db })))
        (run : Keeps P (execute_scheduled_run (run_env env s) out s)) where
      store_error-Keeps : (e : Option String) → Keeps P (store_error env s e)
      unfolding store_error
      store_error-Keeps none = search keeps_rules
      store_error-Keeps (some e) = Keeps-bind _ _ (search keeps_rules) (λ u. schedules _)

      run_claimed-Keeps : Keeps P (run_claimed env out s)
      unfolding run_claimed
      run_claimed-Keeps = Keeps-bind _ _ (caught-Keeps _ run) store_error-Keeps

      pub unless_paused-Keeps : (b : Bool) → Keeps P (unless_paused env out s b)
      unfolding unless_paused claim_schedule
      unless_paused-Keeps true = search keeps_rules
      unless_paused-Keeps false = Keeps-bind _ _ (search keeps_rules) (λ next.
          Keeps-bind _ _ (search keeps_rules) (λ u. Keeps-bind _ _ (search keeps_rules) (λ n.
            Keeps-bind _ _ (schedules _) (λ v. Keeps-if _ _ _ (Keeps-pure tt) run_claimed-Keeps))))

      pub run_due-Keeps : (paused_orgs : List String) → Keeps P (run_due env out paused_orgs s)
      unfolding run_due
      run_due-Keeps paused_orgs = search (keeps_rules, automation_paused-Keeps, unless_paused-Keeps)
