-- ===== src/Queue/Held/Exclusive.antt =====
-- Claims and sweeps on the row of a target under a live lease (apps/api/jobs.go, queue.go, automation.go).
use vpstools.Base.{
  ◌≡◌, refl, String, Bool, false, Option, none, some, List, [], ◌∷◌, arith, passed, inl, inr,
}
use vpstools.Store.Status.{running}
use vpstools.Store.Rows.{Target}
use vpstools.Store.Action.{Result-cases, Env}
use vpstools.Store.Keeps.{
  Keeps, Keeps-bind, Keeps-when, Keeps-on_error, Keeps-transaction, keeps_rules,
}
use vpstools.Jobsign.{Claims}
use vpstools.Runners.Auth.{authenticate_bound_runner}
use vpstools.Queue.Reconcile.{reconcile_organisations, reconcile_all_organisation_leases}
use vpstools.Queue.Claim.{Api, Row, claim_tx, take_row, claim_for, handle_claim_job, lease, takes}
use vpstools.Queue.Held.{
  IsStored, row_move, others_move, record_execution_event-IsStored,
  reconcile_expired_leases-IsStored,
}

module _ (t : Target) (env : Env) (busy : t.status ≡ running)
    (live : passed t.lease_expires_at env.now ≡ false) where
  not_taken : (source : Target) → takes env.now source t ≡ false
  not_taken source = ground (arith, busy, live)

  module _ (org runner : String) where
    take_row-IsStored : (row : Option Row) → Keeps (IsStored t) (take_row env org runner row)
    unfolding take_row
    take_row-IsStored none = search keeps_rules
    take_row-IsStored (some r) =
        search
          (
            keeps_rules,
            others_move t,
            record_execution_event-IsStored t env org,
            row_move t (λ db. takes env.now r.target) (lease env runner) (λ y. refl)
                (λ db. not_taken r.target),
          )
          depth 20

    claim_tx-IsStored :
        (filter : String) (due : Bool) → Keeps (IsStored t) (claim_tx env org runner filter due)
    unfolding claim_tx
    claim_tx-IsStored filter due =
        Keeps-bind _ _
          (Keeps-when due _ (Keeps-on_error _ _ (reconcile_expired_leases-IsStored t env org live)))
          (λ _. Keeps-bind _ _ (search keeps_rules) take_row-IsStored)

    claim_for-IsStored :
        (sign : Claims → Option String) (filter : String) (api : Api)
        → IsStored t api.db
        → IsStored t (claim_for env sign org runner filter api).1.db
    unfolding claim_for
    claim_for-IsStored sign filter api h =
        (Keeps-transaction _ (claim_tx-IsStored filter _)).run api.db h

  reconcile_organisations-IsStored :
      (orgs : List String) → Keeps (IsStored t) (reconcile_organisations env orgs)
  unfolding reconcile_organisations
  reconcile_organisations-IsStored [] = search keeps_rules
  reconcile_organisations-IsStored (org ∷ orgs) =
      Keeps-bind _ _ (reconcile_expired_leases-IsStored t env org live)
        (λ u. reconcile_organisations-IsStored orgs)

  handle_claim_job-IsStored :
      (sign : Claims → Option String) (bearer runner filter : String) (api : Api)
      → IsStored t api.db
      → IsStored t (handle_claim_job env sign bearer runner filter api).1.db
  unfolding handle_claim_job
  handle_claim_job-IsStored sign bearer runner filter api h =
      elim (Result-cases (authenticate_bound_runner env bearer runner api.db).0) [
        | inl (org, e) ↦
            rw (handle_claim_job, e)
              (ground (arith, claim_for-IsStored org runner sign filter api h))
        | inr (m, e) ↦ rw (handle_claim_job, e) h
      ]

  sweep-IsStored : Keeps (IsStored t) (reconcile_all_organisation_leases env)
  unfolding reconcile_all_organisation_leases
  sweep-IsStored = search (keeps_rules, reconcile_organisations-IsStored)

  -- While a running target's lease has not expired, its row stays in the table as it is, and the only
  -- one with its id, through a claim of any runner for any filter, accepted or not, and through the
  -- sweep over all organisations.
  pub live_lease_exclusive :
      (sign : Claims → Option String) (bearer runner filter : String) (api : Api)
      → IsStored t api.db
      → IsStored t (handle_claim_job env sign bearer runner filter api).1.db
        × IsStored t (reconcile_all_organisation_leases env api.db).1
  live_lease_exclusive sign bearer runner filter api h =
      (handle_claim_job-IsStored sign bearer runner filter api h, sweep-IsStored.run api.db h)
