-- ===== src/Automation/Paused.antt =====
-- What a cycle of the scheduler leaves alone (apps/api/automation.go).
use vpstools.Base.{
  ◌≡◌, refl, ◌∙◌, String, Bool, true, false, Option, List, [], ◌∷◌, ◌++◌, arith, ◌==◌, eq_iff,
  Bool-cases, inl, inr,
}
use vpstools.Base.Table.{find, select}
use vpstools.Store.Scheduling.{AutomationSchedule}
use vpstools.Store.Status.{Status}
use vpstools.Store.Catalogue.{RunbookRow}
use vpstools.Store.Rows.{Db, Execution, Target, Metadata}
use vpstools.Store.Action.{Action, Env, pure, gets, modify, refuse_if, ◌>>=◌, ◌>>◌}
use vpstools.Store.Keeps.{Keeps, Keeps-modify, Keeps-bind, Keeps-if, Keeps-pure, keeps_rules}
use vpstools.Audit.{write_audit_event_type, record_execution_event}
use vpstools.Executions.Create.{CreateError, insert_targets, new_target}
use vpstools.Approvals.Request.{Outside}
use vpstools.Automation.Control.{of_org, paused_by, automation_paused}
use vpstools.Automation.Run.{scheduled_tx, execute_scheduled_run}
use vpstools.Automation.Cycle.{unless_paused, run_due, has, run_env, run_due_schedules_once}
use vpstools.Automation.Kept.{rendered-Keeps, run_due-Keeps, cycle-Keeps}

module _ {A : Type 0} where
  -- A row that the query does not see.
  select-append_other :
      (p : A → Bool) (l : List A) (a : A) → p a ≡ false → select p (l ++ a ∷ []) ≡ select p l
  unfolding select
  select-append_other p [] a other = ground arith
  select-append_other p (x ∷ l) a other = ground (arith, select-append_other p l a other)

module _ (org : String) where
  abbrev pub is_paused : Db → Bool
  is_paused db = paused_by (find (of_org org) db.automation_controls)

  abbrev pub executions_of : Db → List Execution
  executions_of db = select (λ e. e.organisation_id == org) db.executions

  abbrev pub targets_of : Db → List Target
  targets_of db = select (λ t. t.organisation_id == org) db.targets

module _ (org : String) (es : List Execution) (ts : List Target) where
  -- The organisation is paused, and has these executions and targets.
  abbrev IsIdle : Db → Type 0
  IsIdle db = (is_paused org db ≡ true) × (executions_of org db ≡ es) × (targets_of org db ≡ ts)

  elsewhere :
      {E : Type 0} (f : Db → Db)
      → ((db : Db) → (f db).automation_controls ≡ db.automation_controls)
      → ((db : Db) → (f db).executions ≡ db.executions)
      → ((db : Db) → (f db).targets ≡ db.targets)
      → Keeps {E = E} IsIdle (modify f)
  elsewhere f c e t = Keeps-modify f (λ db h. rw (c db, e db, t db) h)

  ruleset idle_rules = (keeps_rules, elsewhere)

  added_execution :
      (e : Execution)
      → (e.organisation_id == org) ≡ false
      → Keeps {E = String} IsIdle
          (modify (λ db. record db { executions = db.executions ++ e ∷ [] }))
  added_execution e other =
      Keeps-modify _ (λ db h. (h.0, select-append_other _ db.executions e other ∙ h.1, h.2))

  added_target :
      (t : Target)
      → (t.organisation_id == org) ≡ false
      → Keeps {E = CreateError} IsIdle (modify (λ db. record db { targets = db.targets ++ t ∷ [] }))
  added_target t other =
      Keeps-modify _ (λ db h. (h.0, h.1, select-append_other _ db.targets t other ∙ h.2))

  insert_targets-IsIdle :
      (env : Env) (own : String) (ids : List String)
      → (own == org) ≡ false
      → Keeps IsIdle (insert_targets env own ids)
  unfolding insert_targets
  insert_targets-IsIdle env own [] other = search idle_rules
  insert_targets-IsIdle env own (id ∷ ids) other = Keeps-bind _ _ (search idle_rules) (λ u.
      Keeps-bind _ _ (added_target (new_target env own id) other)
        (λ v. insert_targets-IsIdle env own ids other))

  record_execution_event-IsIdle :
      (env : Env) (own execution target : String) (from : Option Status) (to : Status)
      (event : String) (metadata : Metadata)
      → Keeps IsIdle (record_execution_event env own execution target from to event metadata)
  unfolding record_execution_event
  record_execution_event-IsIdle env own execution target from to event metadata = search idle_rules

  write_audit_event_type-IsIdle :
      (env : Env) (own actor type action target_type target result : String) (metadata : Metadata)
      → Keeps IsIdle
          (write_audit_event_type env own actor type action target_type target result metadata)
  unfolding write_audit_event_type
  write_audit_event_type-IsIdle env own actor type action target_type target result metadata =
      search idle_rules

  scheduled_tx-IsIdle :
      (env : Env) (s : AutomationSchedule) (row : RunbookRow) (e : Execution) (ids : List String)
      → (s.organisation_id == org) ≡ false
      → (e.organisation_id == org) ≡ false
      → Keeps IsIdle (scheduled_tx env s row e ids)
  unfolding scheduled_tx
  scheduled_tx-IsIdle env s row e ids other own = Keeps-bind _ _ (search idle_rules) (λ u.
      Keeps-bind _ _ (added_execution e own) (λ v.
        search
          (
            idle_rules, insert_targets-IsIdle, record_execution_event-IsIdle,
            write_audit_event_type-IsIdle,
          )
          depth 20))

  execute-IsIdle :
      (env : Env) (out : Outside) (s : AutomationSchedule)
      → (s.organisation_id == org) ≡ false
      → Keeps IsIdle (execute_scheduled_run env out s)
  unfolding execute_scheduled_run
  execute-IsIdle env out s other = search (idle_rules, rendered-Keeps, scheduled_tx-IsIdle) depth 60

  -- The pause is seen where it is read.
  past_paused :
      (env : Env) (e : String) (k : Bool → Action String (Unit {0}))
      → Keeps IsIdle (k true)
      → Keeps IsIdle (automation_paused e env org >>= k)
  unfolding ◌>>=◌ automation_paused
  past_paused env e k kk = record { run = λ db h. go db h (env.fails "read automation status") }
    where
      go :
          (db : Db)
          → IsIdle db
          → (b : Bool)
          → IsIdle
              (((refuse_if b e
                    >> (gets (λ db. find (of_org org) db.automation_controls) >>= λ found.
                        pure (paused_by found)))
                  >>= k)
                db).1
      go db h true = h
      go db h false = rw h.0 (kk.run db h)

  passed_over :
      (env : Env) (out : Outside) (s : AutomationSchedule)
      → Keeps IsIdle (unless_paused env out s true)
  unfolding unless_paused
  passed_over env out s = search idle_rules

  run_due-IsIdle :
      (env : Env) (out : Outside) (paused_orgs : List String) (s : AutomationSchedule)
      → Keeps IsIdle (run_due env out paused_orgs s)
  unfolding run_due
  run_due-IsIdle env out paused_orgs s = elim (Bool-cases (s.organisation_id == org)) [
    | inl own ↦ rw ((eq_iff s.organisation_id org).0 own) (
        Keeps-if (has org paused_orgs) (pure tt) _ (Keeps-pure tt)
          (past_paused env _ _ (passed_over env out _)))
    | inr other ↦
        run_due-Keeps env out s (λ f. elsewhere _ (λ db. refl) (λ db. refl) (λ db. refl))
          (execute-IsIdle (run_env env s) out s other) paused_orgs
  ]

-- While an organisation is paused, a cycle of the scheduler, with any statements failing, leaves it
-- paused and adds no execution and no target of it, whatever schedules it has.
pub paused_org-kept :
    (env : Env) (out : Outside) (org : String) (db : Db)
    → is_paused org db ≡ true
    → let after = (run_due_schedules_once env out db).1 in
      (is_paused org after ≡ true)
      × (executions_of org after ≡ executions_of org db)
      × (targets_of org after ≡ targets_of org db)
paused_org-kept env out org db h =
    (cycle-Keeps env out
        (run_due-IsIdle org (executions_of org db) (targets_of org db) env out)).run
      db (h, refl, refl)
