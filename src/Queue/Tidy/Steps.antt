-- ===== src/Queue/Tidy/Steps.antt =====
-- The invariant of the targets across the handlers and sweeps of the queue (apps/api/jobs.go, queue.go).
use vpstools.Base.{
  ℕ, ◌+◌, ◌≡◌, String, Bool, true, Option, none, some, List, [], ◌∷◌, arith, inl, inr, ◌==◌,
}
use vpstools.Base.Table.{update}
use vpstools.Store.Status.{cancelled}
use vpstools.Store.Rows.{Db, Target}
use vpstools.Store.Action.{Env, Result-cases, modify}
use vpstools.Store.Keeps.{Keeps, Keeps-bind, Keeps-when, Keeps-on_error, Keeps-transaction}
use vpstools.Authz.{Actor}
use vpstools.Jobsign.{Claims}
use vpstools.Runners.Reply.{respond}
use vpstools.Runners.Auth.{authenticate_bound_runner}
use vpstools.Runners.Auth.Binding.{authenticate_bound_runner-unchanged}
use vpstools.Queue.Backoff.{retry_backoff_seconds}
use vpstools.Queue.Reconcile.{
  reconcile_target, reconcile_each, finalize_reconciled_executions, reconcile_expired_leases,
  reconcile_organisations, reconcile_all_organisation_leases, bury, requeue, still_running,
}
use vpstools.Queue.Claim.{Api, Row, claim_tx, take_row, claim_for, handle_claim_job, lease, takes}
use vpstools.Queue.Renew.{renew_for, LeaseRequest, renew_lease, handle_renew_lease, is_held}
use vpstools.Queue.Cancel.{cancel_execution, handle_cancel_execution}
use vpstools.Queue.Tidy.{is_tidy, IsTidy, targets_move, others_move, tidy_rules}

-- The changes of a row.
buried : (env : Env) (t : Target) → is_tidy t ≡ true → is_tidy (bury env t) ≡ true
buried env t h = ground arith

requeued : (at : ℕ) (t : Target) → is_tidy t ≡ true → is_tidy (requeue at t) ≡ true
requeued at t h = ground arith

leased :
    (env : Env) (runner : String) (now : ℕ) (source t : Target)
    → is_tidy t ≡ true
    → takes now source t ≡ true
    → is_tidy (lease env runner t) ≡ true
leased env runner now source t h took = ground arith

renewed :
    (q : LeaseRequest) (at : ℕ) (t : Target)
    → is_tidy t ≡ true
    → is_held q t ≡ true
    → is_tidy (record t { lease_expires_at = some at }) ≡ true
renewed q at t h held = ground arith

cancels : (t : Target) → is_tidy t ≡ true → is_tidy (record t { status = cancelled }) ≡ true
cancels t h = ground arith

module _ (env : Env) (org : String) where
  reconcile_target-IsTidy : (t : Target) → Keeps IsTidy (reconcile_target env org t)
  unfolding reconcile_target
  reconcile_target-IsTidy t = search (
    tidy_rules,
    targets_move (λ db. still_running t.id) (bury env) (λ db x h p. buried env x h),
    targets_move (λ db. still_running t.id) (requeue (env.now + retry_backoff_seconds t.attempt))
        (λ db x h p. requeued (env.now + retry_backoff_seconds t.attempt) x h),
  )

  reconcile_each-IsTidy : (ts : List Target) → Keeps IsTidy (reconcile_each env org ts)
  unfolding reconcile_each
  reconcile_each-IsTidy [] = search tidy_rules
  reconcile_each-IsTidy (t ∷ ts) =
      search (tidy_rules, reconcile_target-IsTidy t, reconcile_each-IsTidy ts)

  finalize-IsTidy : Keeps IsTidy (finalize_reconciled_executions env org)
  unfolding finalize_reconciled_executions
  finalize-IsTidy = search (tidy_rules, others_move)

  reconcile_expired_leases-IsTidy : Keeps IsTidy (reconcile_expired_leases env org)
  unfolding reconcile_expired_leases
  reconcile_expired_leases-IsTidy = search (tidy_rules, reconcile_each-IsTidy, finalize-IsTidy)

reconcile_organisations-IsTidy :
    (env : Env) (orgs : List String) → Keeps IsTidy (reconcile_organisations env orgs)
unfolding reconcile_organisations
reconcile_organisations-IsTidy env [] = search tidy_rules
reconcile_organisations-IsTidy env (org ∷ orgs) =
    search
      (tidy_rules, reconcile_expired_leases-IsTidy env org, reconcile_organisations-IsTidy env orgs)

pub reconcile_all-IsTidy : (env : Env) → Keeps IsTidy (reconcile_all_organisation_leases env)
unfolding reconcile_all_organisation_leases
reconcile_all-IsTidy env = search (tidy_rules, reconcile_organisations-IsTidy)

module _ (env : Env) (org runner : String) where
  take_row-IsTidy : (row : Option Row) → Keeps IsTidy (take_row env org runner row)
  unfolding take_row
  take_row-IsTidy none = search tidy_rules
  take_row-IsTidy (some r) =
      search
        (
          tidy_rules,
          others_move,
          targets_move (λ db. takes env.now r.target) (lease env runner)
              (λ db t h took. leased env runner env.now r.target t h took),
        )
        depth 20

  claim_tx-IsTidy :
      (filter : String) (due : Bool) → Keeps IsTidy (claim_tx env org runner filter due)
  unfolding claim_tx
  claim_tx-IsTidy filter due =
      Keeps-bind _ _
        (Keeps-when due _ (Keeps-on_error _ _ (reconcile_expired_leases-IsTidy env org)))
        (λ _. Keeps-bind _ _ (search tidy_rules) take_row-IsTidy)

  claim_for-IsTidy :
      (sign : Claims → Option String) (filter : String) (api : Api)
      → IsTidy api.db
      → IsTidy (claim_for env sign org runner filter api).1.db
  unfolding claim_for
  claim_for-IsTidy sign filter api h = (Keeps-transaction _ (claim_tx-IsTidy filter _)).run api.db h

pub handle_claim_job-IsTidy :
    (env : Env) (sign : Claims → Option String) (bearer runner filter : String) (api : Api)
    → IsTidy api.db
    → IsTidy (handle_claim_job env sign bearer runner filter api).1.db
unfolding handle_claim_job
handle_claim_job-IsTidy env sign bearer runner filter api h =
    elim (Result-cases (authenticate_bound_runner env bearer runner api.db).0) [
      | inl (org, e) ↦
          rw (handle_claim_job, e)
            (ground (arith, claim_for-IsTidy env org runner sign filter api h))
      | inr (m, e) ↦ rw (handle_claim_job, e) h
    ]

pub authenticate_bound_runner-IsTidy :
    (env : Env) (token runner : String) → Keeps IsTidy (authenticate_bound_runner env token runner)
authenticate_bound_runner-IsTidy env token runner = record {
  run = λ db h. rw (authenticate_bound_runner-unchanged env token runner db) h;
}

renew-IsTidy :
    {E : Type 0} (q : LeaseRequest) (at : ℕ)
    → Keeps {E = E} IsTidy (
        modify (λ db. record db {
          targets = update (is_held q) (λ t. record t { lease_expires_at = some at }) db.targets;
        }))
renew-IsTidy q at = targets_move (λ db. is_held q) _ (λ db. renewed q at)

renew_lease-IsTidy :
    (env : Env) (bearer : String) (body : Option LeaseRequest)
    → Keeps IsTidy (renew_lease env bearer body)
unfolding renew_lease renew_for
renew_lease-IsTidy env bearer body =
    search (tidy_rules, authenticate_bound_runner-IsTidy, renew-IsTidy) depth 20

pub handle_renew_lease-IsTidy :
    (env : Env) (bearer : String) (body : Option LeaseRequest) (db : Db)
    → IsTidy db
    → IsTidy (handle_renew_lease env bearer body db).1
unfolding handle_renew_lease respond
handle_renew_lease-IsTidy env bearer body db h = (renew_lease-IsTidy env bearer body).run db h

cancel_execution-IsTidy :
    (env : Env) (lower_trim : String → String) (actor : Actor) (id : String)
    → Keeps IsTidy (cancel_execution env lower_trim actor id)
unfolding cancel_execution
cancel_execution-IsTidy env lower_trim actor id =
    search
      (
        tidy_rules,
        others_move,
        targets_move (λ db t. t.execution_id == id) (λ t. record t { status = cancelled })
            (λ db t h p. cancels t h),
      )
      depth 20

pub handle_cancel_execution-IsTidy :
    (env : Env) (lower_trim : String → String) (actor : Actor) (id : String) (db : Db)
    → IsTidy db
    → IsTidy (handle_cancel_execution env lower_trim actor id db).1
unfolding handle_cancel_execution respond
handle_cancel_execution-IsTidy env lower_trim actor id db h =
    (cancel_execution-IsTidy env lower_trim actor id).run db h
