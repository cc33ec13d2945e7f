-- ===== src/Queue/Tidy/Reach.antt =====
-- The queue as a transition system: any sequence of requests and sweeps, each with its own clock and
-- failures.
use vpstools.Base.{◌≡◌, String, Option}
use vpstools.Store.Rows.{Db}
use vpstools.Store.Action.{Env}
use vpstools.Authz.{Actor}
use vpstools.Jobsign.{Claims}
use vpstools.Queue.Reconcile.{reconcile_all_organisation_leases}
use vpstools.Queue.Claim.{Api, handle_claim_job}
use vpstools.Queue.Renew.{LeaseRequest, handle_renew_lease}
use vpstools.Queue.Cancel.{handle_cancel_execution}
use vpstools.Queue.Submit.{Submission, Outside}
use vpstools.Queue.Submit.Handle.{handle_submit_result}
use vpstools.Executions.Create.{Helpers, Request}
use vpstools.Executions.Create.Handle.{handle_create_execution}
use vpstools.Queue.Tidy.{IsTidy}
use vpstools.Queue.Tidy.Creation.{handle_create_execution-IsTidy}
use vpstools.Queue.Tidy.Steps.{
  handle_claim_job-IsTidy, handle_renew_lease-IsTidy, handle_cancel_execution-IsTidy,
  reconcile_all-IsTidy,
}
use vpstools.Approvals.Request.{RunRequest, Outside as RunOutside}
use vpstools.Approvals.Run.{handle_run_runbook}
use vpstools.Approvals.Decide.{handle_approve, handle_deny}
use vpstools.Automation.Cycle.{run_due_schedules_once}
use vpstools.Queue.Tidy.Scheduling.{cycle-IsTidy}
use vpstools.Queue.Tidy.Approvals.{
  handle_run_runbook-IsTidy, handle_approve-IsTidy, handle_deny-IsTidy,
}
use vpstools.Queue.Tidy.Results.{handle_submit_result-IsTidy}

-- What the server may run next.
pub data Event : Type 0 where
  claim : Env → (Claims → Option String) → String → String → String → Event
  renew : Env → String → Option LeaseRequest → Event
  submit : Env → Outside → String → Option Submission → Event
  cancel : Env → (String → String) → Actor → String → Event
  sweep : Env → Event
  create : Env → Helpers → Actor → String → Option Request → Event
  run : Env → RunOutside → Actor → String → String → RunRequest → Event
  approval : Env → RunOutside → Actor → String → String → Event
  denial : Env → RunOutside → Actor → String → String → Event
  cycle : Env → RunOutside → Event
  -- a handler that does not touch the targets
  other : (f : Db → Db) → ((db : Db) → (f db).targets ≡ db.targets) → Event

abbrev with_db : Api → Db → Api
with_db api db = record api { db = db }

unfoldable pub step : Event → Api → Api
step (claim env sign bearer runner filter) api =
    (handle_claim_job env sign bearer runner filter api).1
step (renew env bearer body) api = with_db api (handle_renew_lease env bearer body api.db).1
step (submit env out bearer body) api =
    with_db api (handle_submit_result env out bearer body api.db).1
step (cancel env lower_trim actor id) api =
    with_db api (handle_cancel_execution env lower_trim actor id api.db).1
step (create env h actor header body) api =
    with_db api (handle_create_execution env h actor header body api.db).1
step (run env out actor name header q) api =
    with_db api (handle_run_runbook env out actor name header q api.db).1
step (approval env out actor id note) api =
    with_db api (handle_approve env out actor id note api.db).1
step (denial env out actor id note) api = with_db api (handle_deny env out actor id note api.db).1
step (cycle env out) api = with_db api (run_due_schedules_once env out api.db).1
step (other f same) api = with_db api (f api.db)
step (sweep env) api = with_db api (reconcile_all_organisation_leases env api.db).1

-- The states that some sequence of events leads to.
pub data Reaches (start : Api) : Api → Type 0 where
  here : Reaches start start
  next : (e : Event) {api : Api} → Reaches start api → Reaches start (step e api)

step-IsTidy : (e : Event) (api : Api) → IsTidy api.db → IsTidy (step e api).db
unfolding step
step-IsTidy (claim env sign bearer runner filter) api h =
    handle_claim_job-IsTidy env sign bearer runner filter api h
step-IsTidy (renew env bearer body) api h = handle_renew_lease-IsTidy env bearer body api.db h
step-IsTidy (submit env out bearer body) api h =
    handle_submit_result-IsTidy env out bearer body api.db h
step-IsTidy (cancel env lower_trim actor id) api h =
    handle_cancel_execution-IsTidy env lower_trim actor id api.db h
step-IsTidy (create env helpers actor header body) api h =
    handle_create_execution-IsTidy env helpers actor header body api.db h
step-IsTidy (run env out actor name header q) api h =
    handle_run_runbook-IsTidy env out actor name header q api.db h
step-IsTidy (approval env out actor id note) api h =
    handle_approve-IsTidy env out actor id note api.db h
step-IsTidy (denial env out actor id note) api h = handle_deny-IsTidy env out actor id note api.db h
step-IsTidy (cycle env out) api h = (cycle-IsTidy env out).run api.db h
step-IsTidy (other f same) api h = rw (same api.db) h
step-IsTidy (sweep env) api h = (reconcile_all-IsTidy env).run api.db h

-- However creations, runs of runbooks, decisions on their requests, scheduler cycles, claims,
-- renewals, results, cancellations, sweeps and changes of the other tables follow one another, with any statements
-- failing, from targets that satisfy the invariant: no target is attempted more often than allowed, a
-- running target has a runner and a lease that expires, a pending one has neither runner nor lease,
-- and one that succeeded, failed or was dead-lettered has no lease expiry.
pub Reaches-IsTidy :
    (start : Api) → IsTidy start.db → {api : Api} → Reaches start api → IsTidy api.db
Reaches-IsTidy start h here = h
Reaches-IsTidy start h (next e {api} r) = step-IsTidy e api (Reaches-IsTidy start h r)
