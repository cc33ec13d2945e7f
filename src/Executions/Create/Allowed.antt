-- ===== src/Executions/Create/Allowed.antt =====
-- Which requests create an execution (apps/api/executions.go).
use vpstools.Base.{◌≡◌, ◌≢◌, String, Bool, true, false, List, [], arith, inl, inr, Bool-cases}
use vpstools.Store.Rows.{Db}
use vpstools.Store.Action.{ok, Env, ◌>>=◌}
use vpstools.Authz.{Actor}
use vpstools.Authz.Policy.{check_execution}
use vpstools.Authz.Policy.Rules.{MayExecute, check_execution_iff}
use vpstools.Authz.Risk.{classify_risk}
use vpstools.Runners.Denial.{write_denial-err}
use vpstools.Runners.Reply.{Reply}
use vpstools.Executions.Targets.{resolve_targets, target_environment}
use vpstools.Executions.Create.{Request, Helpers}
use vpstools.Executions.Create.Handle.{create_execution}

module _ (env : Env) (h : Helpers) (actor : Actor) (q : Request) (key hash : String) (db : Db) where
  abbrev pub named : List String
  named = resolve_targets env actor.organisation_id q.target db

  abbrev pub where_it_runs : String × Bool
  where_it_runs = target_environment env actor.organisation_id named db

  abbrev pub may_run : Bool
  may_run =
      (check_execution actor where_it_runs.0 (classify_risk h.lower_trim q.command)
        q.reason).allowed

  denied : may_run ≡ false → (r : Reply) → (create_execution env h actor q key hash db).0 ≢ ok r
  unfolding create_execution ◌>>=◌
  denied bad r done = ground (
    arith,
    bad,
    write_denial-err env actor "execution.requested" "execution" q.target
        (check_execution actor where_it_runs.0 (classify_risk h.lower_trim q.command) q.reason) db,
  )

  several :
      where_it_runs.1 ≡ true → (r : Reply) → (create_execution env h actor q key hash db).0 ≢ ok r
  unfolding create_execution ◌>>=◌
  several bad r done = ground (arith, bad)

  unknown : named ≡ [] → (r : Reply) → (create_execution env h actor q key hash db).0 ≢ ok r
  unfolding create_execution ◌>>=◌
  unknown bad r done = ground (arith, bad)

  -- A request for a new execution that succeeds named at least one server, all of one environment, and the
  -- actor may execute a command of that risk there, with the reason that was given.
  pub create_execution-MayExecute :
      (r : Reply)
      → (create_execution env h actor q key hash db).0 ≡ ok r
      → (named ≢ [])
        × (where_it_runs.1 ≡ false)
        × MayExecute actor where_it_runs.0 (classify_risk h.lower_trim q.command) q.reason
  create_execution-MayExecute r done = (λ none. unknown none r done, one, allowed)
    where
      one : where_it_runs.1 ≡ false
      one = elim (Bool-cases where_it_runs.1) [ inl e ↦ absurd (several e r done) | inr e ↦ e ]

      allowed : MayExecute actor where_it_runs.0 (classify_risk h.lower_trim q.command) q.reason
      allowed = elim (Bool-cases may_run) [
        | inl e ↦
            (check_execution_iff actor where_it_runs.0 (classify_risk h.lower_trim q.command)
                q.reason).0
              e
        | inr e ↦ absurd (denied e r done)
      ]
