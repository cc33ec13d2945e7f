-- ===== src/Examples/Queue.antt =====
-- The queue on the tables of World.
use vpstools.Base.{
  ◌∷◌, [], map, ◌≡◌, refl, inl, inr, String, false, Option, none, some, arith, ◌==◌, eq_iff, All,
}
use vpstools.Store.Status.{pending}
use vpstools.Base.Table.{find, select, update, count, exists}
use vpstools.Store.Rows.{Db}
use vpstools.Store.Action.{ok, err, Env, ◌>>=◌}
use vpstools.Audit.{record_execution_event, write_audit_event, latest_audit_hash}
use vpstools.Jobsign.{Claims}
use vpstools.Runners.Reply.{failure, status, respond}
use vpstools.Runners.Auth.{authenticate_bound_runner, authenticate_runner_credential}
use vpstools.Queue.Backoff.{retry_backoff_seconds}
use vpstools.Queue.Reconcile.{
  reconcile_all_organisation_leases, reconcile_expired_leases, reconcile_each, reconcile_target,
  finalize_reconciled_executions, is_expired,
}
use vpstools.Queue.Recovered.{sweep_recovers}
use vpstools.Queue.Claim.{claim_tx, take_row, claim_query, claims_of, handle_claim_job, keep, join}
use vpstools.Queue.Claim.Grant.{claim_tx-Grants, Grants, seen}
use vpstools.Queue.Claim.Refusal.{refused_claim}
use vpstools.Queue.Renew.{renew_for, handle_renew_lease, renew_lease}
use vpstools.Queue.Renew.Effect.{renewal, Renewed}
use vpstools.Queue.Cancel.{handle_cancel_execution, cancel_execution, can_manage_execution}
use vpstools.Queue.Cancel.Effect.{cancellation, Cancelled}
use vpstools.Queue.Submit.{Submission}
use vpstools.Queue.Submit.Handle.{submit_result, accept_result, handle_submit_result}
use vpstools.Queue.Submit.Refused.{refused_result}
use vpstools.Queue.Tidy.{IsTidy}
use vpstools.Queue.Tidy.Reach.{here, next, claim, sweep, step, Reaches-IsTidy}
use vpstools.Queue.Held.{IsStored}
use vpstools.Queue.Held.Isolation.{foreign_lease_isolated}
use vpstools.Queue.Held.Exclusive.{live_lease_exclusive}
use vpstools.Examples.World.{
  env, owner, db, api, out, result, renewal_request, waiting, busy, asked, web,
}

abbrev after_result : Db
after_result = (submit_result env out "org_1" result db).1

abbrev job : Claims
job = claims_of env "run_1" (record { target = waiting; execution = asked; server = web })

claimed : (claim_tx env "org_1" "run_1" "" false db).0 ≡ ok (some job)
unfolding claim_tx take_row claim_query join keep record_execution_event find update count exists
    ◌>>=◌
claimed = refl

claim_tx-Grants_example :
    Grants env "org_1" "run_1" ""
      (seen env "org_1" "run_1" "" false db)
      job
      (claim_tx env "org_1" "run_1" "" false db).1.targets
claim_tx-Grants_example = claim_tx-Grants env "org_1" "run_1" "" false db job claimed

-- No signer: the job stays taken.
no_signature : Claims → Option String
no_signature c = none

abbrev offline : Env
offline = record env { fails = λ what. what == "failed to start job claim" }

offline_claim :
    (handle_claim_job offline no_signature "secret" "run_1" "" api).0
    ≡ failure 500 "failed to start job claim"
unfolding handle_claim_job authenticate_bound_runner find
offline_claim = refl

refused_claim_example : (handle_claim_job offline no_signature "secret" "run_1" "" api).1.db ≡ db
refused_claim_example =
    refused_claim offline no_signature "secret" "run_1" "" api 500 "failed to start job claim"
      offline_claim (λ e. ground (arith, eq_iff "failed to start job claim" "failed to sign job"))

live_lease_exclusive_example :
    IsStored busy (handle_claim_job env no_signature "secret" "run_1" "" api).1.db
    × IsStored busy (reconcile_all_organisation_leases env db).1
live_lease_exclusive_example =
    live_lease_exclusive busy env refl refl no_signature "secret" "run_1" "" api
      (inr (inl refl), (λ e. ground arith, (λ e. refl, tt)))

Reaches-IsTidy_example :
    IsTidy (step (sweep env) (step (claim env no_signature "secret" "run_1" "") api)).db
Reaches-IsTidy_example =
    Reaches-IsTidy api (refl, (refl, tt))
      (next (sweep env) (next (claim env no_signature "secret" "run_1" "") here))

renews : (handle_renew_lease env "secret" (some renewal_request) db).0 ≡ status 200 "renewed"
unfolding handle_renew_lease renew_lease renew_for authenticate_bound_runner respond find update
    count ◌>>=◌
renews = refl

renewal_example : Renewed env "secret" renewal_request db
renewal_example = renewal env "secret" renewal_request db renews

lower : String → String
lower s = s

cancels : (handle_cancel_execution env lower owner "exec_1" db).0 ≡ status 200 "cancelled"
unfolding handle_cancel_execution cancel_execution can_manage_execution write_audit_event
    latest_audit_hash respond find select update count ◌>>=◌
cancels = refl

cancellation_example : Cancelled env lower owner "exec_1" db
cancellation_example = cancellation env lower owner "exec_1" db cancels

unknown :
    (accept_result env out "guess" (some result) db).0
    ≡ err (failure 401 "invalid or expired runner registration credential")
unfolding accept_result authenticate_runner_credential find ◌>>=◌
unknown = refl

refused_result_example :
    handle_submit_result env out "guess" (some result) db
    ≡ (failure 401 "invalid or expired runner registration credential", db)
refused_result_example = refused_result env out "guess" (some result) db _ unknown

abbrev late : Submission
late = record result { lease_id = "lease_0" }

abbrev afterwards : Env
afterwards = record env { now = 2000 }

sweep_recovers_example :
    ((reconcile_expired_leases afterwards "org_1" db).0 ≡ ok tt)
    × All
        (λ u. is_expired afterwards "org_1" db.executions u ≡ false)
        (reconcile_expired_leases afterwards "org_1" db).1.targets
sweep_recovers_example = sweep_recovers afterwards "org_1" (λ what. refl) db

takes_back :
    map (λ t. t.status) (reconcile_expired_leases afterwards "org_1" db).1.targets
    ≡ pending ∷ pending ∷ []
unfolding reconcile_expired_leases reconcile_each reconcile_target finalize_reconciled_executions
    retry_backoff_seconds record_execution_event find select update exists ◌>>=◌
takes_back = refl

foreign_lease_isolated_example :
    IsStored busy
      (handle_renew_lease env "secret"
        (some (record renewal_request { lease_id = "lease_0" }))
        db).1
    × IsStored busy (submit_result env out "org_1" late db).1
foreign_lease_isolated_example =
    foreign_lease_isolated busy env out "secret" "org_1"
      (record renewal_request { lease_id = "lease_0" }) late db refl refl
      (inr (inl refl), (λ e. ground arith, (λ e. refl, tt)))
