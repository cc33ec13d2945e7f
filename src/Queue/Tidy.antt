-- ===== src/Queue/Tidy.antt =====
-- The invariant of the rows of execution_targets (apps/api/jobs.go, queue.go and executions.go).
pub mod Steps
pub mod Results
pub mod Creation
pub mod Approvals
pub mod Scheduling
pub mod Reach
use vpstools.Base.{
  ℕ, ◌+◌, ◌≡◌, refl, String, Bool, true, false, not, ◌&&◌, Option, none, some, List, arith, leb,
  ltb, All,
}
use vpstools.Base.Table.{update}
use vpstools.Base.Table.Laws.{All-update}
use vpstools.Store.Status.{
  Status, created, queued, pending, running, succeeded, failed, dead_letter, cancelled,
}
use vpstools.Store.Rows.{Db, Target, Metadata}
use vpstools.Store.Action.{Action, Env, modify, on_error, ◌>>=◌}
use vpstools.Store.Keeps.{Keeps, Keeps-modify, keeps_rules}
use vpstools.Audit.{
  write_audit_event_type, write_audit_event_tx, write_audit_event, record_execution_event,
}

module _ {ℓ} {A : Type ℓ} where
  abbrev pub given : Option A → Bool
  given none = false
  given (some a) = true

-- Which of the runner, the lease and its expiry a row has in each status.
abbrev pub shape : Status → Bool → Bool → Bool → Bool
shape running runner id expiry = runner && (id && expiry)
shape pending runner id expiry = not runner && (not id && not expiry)
shape succeeded runner id expiry = not expiry
shape failed runner id expiry = not expiry
shape dead_letter runner id expiry = not expiry
shape _ runner id expiry = true

-- No more attempts than allowed; a running target has a runner and a lease that expires, a pending
-- one has neither, and a finished one cannot expire.
abbrev pub is_tidy : Target → Bool
is_tidy t =
    leb t.attempt t.max_attempts
    && shape t.status (given t.runner_id) (given t.lease_id) (given t.lease_expires_at)

abbrev pub IsTidy : Db → Type 0
IsTidy db = All (λ t. is_tidy t ≡ true) db.targets

module _ {E : Type 0} where
  pub targets_move :
      (p : Db → Target → Bool) (f : Target → Target)
      → ((db : Db) (t : Target) → is_tidy t ≡ true → p db t ≡ true → is_tidy (f t) ≡ true)
      → Keeps {E = E} IsTidy (modify (λ db. record db { targets = update (p db) f db.targets }))
  targets_move p f h =
      Keeps-modify _ (λ db inv. All-update (λ t. is_tidy t ≡ true) (p db) f db.targets (h db) inv)

  pub others_move :
      (f : Db → Db) → ((db : Db) → (f db).targets ≡ db.targets) → Keeps {E = E} IsTidy (modify f)
  others_move f h = Keeps-modify f (λ db inv. rw (h db) inv)

-- Neither log touches the targets.
pub record_execution_event-IsTidy :
    (env : Env) (org execution target : String) (from : Option Status) (to : Status)
    (event : String) (metadata : Metadata)
    → Keeps IsTidy (record_execution_event env org execution target from to event metadata)
unfolding record_execution_event
record_execution_event-IsTidy env org execution target from to event metadata =
    search (keeps_rules, others_move)

pub write_audit_event_tx-IsTidy :
    (env : Env) (org actor action target_type target result : String) (metadata : Metadata)
    → Keeps IsTidy (write_audit_event_tx env org actor action target_type target result metadata)
unfolding write_audit_event_tx write_audit_event_type
write_audit_event_tx-IsTidy env org actor action target_type target result metadata =
    search (keeps_rules, others_move)

pub write_audit_event-IsTidy :
    {E : Type 0} (env : Env) (org actor action target_type target result : String)
    (metadata : Metadata)
    → Keeps {E = E} IsTidy
        (write_audit_event env org actor action target_type target result metadata)
unfolding write_audit_event
write_audit_event-IsTidy env org actor action target_type target result metadata = record {
  run = (write_audit_event_tx-IsTidy env org actor action target_type target result metadata).run;
}

pub ruleset tidy_rules = (
  keeps_rules, record_execution_event-IsTidy, write_audit_event_tx-IsTidy, write_audit_event-IsTidy,
)
