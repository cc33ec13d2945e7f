-- ===== src/Queue/Claim/Refusal.antt =====
-- A claim that is refused (apps/api/jobs.go).
use vpstools.Base.{
  ℕ, ◌*◌, ◌≡◌, ◌≢◌, refl, String, Option, none, some, arith, inl, inr, Option-cases,
}
use vpstools.Store.Rows.{Db}
use vpstools.Store.Action.{Result, ok, err, Result-cases, Env, settle, transaction}
use vpstools.Throttle.{due}
use vpstools.Jobsign.{Claims}
use vpstools.Runners.Reply.{Reply, failure}
use vpstools.Runners.Auth.{authenticate_bound_runner}
use vpstools.Queue.Claim.{Api, send, claim_for, claim_tx, handle_claim_job}

settled :
    (sign : Claims → Option String) (before after : Db) (r : Result Reply (Option Claims)) (n : ℕ)
    (m : String)
    → send sign (settle before r after).0 ≡ failure n m
    → m ≢ "failed to sign job"
    → (settle before r after).1 ≡ before
settled sign before after (err e) n m h other = refl
settled sign before after (ok none) n m h other = ground arith
settled sign before after (ok (some c)) n m h other = elim (Option-cases (sign c)) [
  | inl e ↦ ground (arith, e)
  | inr (signature, e) ↦ ground (arith, e)
]

claim_for-refused :
    (env : Env) (sign : Claims → Option String) (org runner filter : String) (api : Api) (n : ℕ)
    (m : String)
    → (claim_for env sign org runner filter api).0 ≡ failure n m
    → m ≢ "failed to sign job"
    → (claim_for env sign org runner filter api).1.db ≡ api.db
unfolding claim_for transaction
claim_for-refused env sign org runner filter api n m h other =
    let tx =
      claim_tx env org runner filter (due api.throttle org (env.now * 1000000000)).1 api.db in
    settled sign api.db tx.1 tx.0 n m h other

-- A claim that is answered with an error leaves every table as it was, whatever was swept or taken
-- before the error, except where the job was taken and only its signature failed.
pub refused_claim :
    (env : Env) (sign : Claims → Option String) (bearer runner filter : String) (api : Api) (n : ℕ)
    (m : String)
    → (handle_claim_job env sign bearer runner filter api).0 ≡ failure n m
    → m ≢ "failed to sign job"
    → (handle_claim_job env sign bearer runner filter api).1.db ≡ api.db
unfolding handle_claim_job
refused_claim env sign bearer runner filter api n m h other =
    elim (Result-cases (authenticate_bound_runner env bearer runner api.db).0) [
      | inl (org, e) ↦
          rw (handle_claim_job, e)
            (ground (
              arith,
              other,
              rw (handle_claim_job, e) at h,
              claim_for-refused env sign org runner filter api n m,
            ))
      | inr (x, e) ↦ rw (handle_claim_job, e) refl
    ]
