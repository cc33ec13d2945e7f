-- ===== src/Queue/Submit/Refused.antt =====
-- Results that are not accepted (apps/api/jobs.go).
use vpstools.Base.{◌≡◌, refl, ◌∙◌, String, Option}
use vpstools.Store.Rows.{Db}
use vpstools.Store.Keeps.{Keeps, keeps_rules}
use vpstools.Store.Fails.{Fails, fails_rules}
use vpstools.Store.Action.{err, Env}
use vpstools.Runners.Reply.{Reply, respond}
use vpstools.Runners.Auth.{authenticate_runner_credential, authenticate_bound_runner}
use vpstools.Runners.Auth.Binding.{
  authenticate_bound_runner-unchanged, authenticate_runner_credential-unchanged,
}
use vpstools.Queue.Submit.{Submission, Outside}
use vpstools.Queue.Submit.Handle.{submit_result, accept_result, handle_submit_result}

module _ (env : Env) (bearer : String) (before : Db) where
  abbrev Unchanged : Db → Type 0
  Unchanged db = db ≡ before

  credential-Unchanged : Keeps Unchanged (authenticate_runner_credential env bearer)
  credential-Unchanged = record {
    run = λ db h. authenticate_runner_credential-unchanged env bearer db ∙ h;
  }

  bound-Unchanged :
      (runner : String) → Keeps Unchanged (authenticate_bound_runner env bearer runner)
  bound-Unchanged runner = record {
    run = λ db h. authenticate_bound_runner-unchanged env bearer runner db ∙ h;
  }

  submit_result-Unchanged :
      (out : Outside) (org : String) (q : Submission)
      → Fails Unchanged (submit_result env out org q)
  unfolding submit_result
  submit_result-Unchanged out org q = search (keeps_rules, fails_rules)

  accept_result-Unchanged :
      (out : Outside) (body : Option Submission)
      → Fails Unchanged (accept_result env out bearer body)
  unfolding accept_result
  accept_result-Unchanged out body =
      search
        (keeps_rules, fails_rules, credential-Unchanged, bound-Unchanged, submit_result-Unchanged)
        depth 20

-- A result that is answered with an error, of whatever step, changes no table: the result, the retry, the
-- events, the audit entry and the receipt are stored together or not at all.
pub refused_result :
    (env : Env) (out : Outside) (bearer : String) (body : Option Submission) (db : Db) (r : Reply)
    → (accept_result env out bearer body db).0 ≡ err r
    → (handle_submit_result env out bearer body db) ≡ (r, db)
unfolding handle_submit_result respond
refused_result env out bearer body db r h =
    rw (h, (accept_result-Unchanged env bearer db out body).run db refl r h) refl
