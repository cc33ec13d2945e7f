-- ===== src/Approvals/Planned.antt =====
-- What the checks of a run have found (apps/api/runbooks.go).
use vpstools.Base.{◌≡◌, refl, ap, String, Bool, true, false, not, ◌&&◌, some, arith}
use vpstools.Store.Rows.{Db}
use vpstools.Store.Action.{Action, Env, ◌>>=◌}
use vpstools.Store.Ends.{Ends}
use vpstools.Store.Paths.{past_refuse, past_or_raise, past_read, end_pure}
use vpstools.Authz.{Actor}
use vpstools.Runbooks.Types.{Checked, accepted, rejected}
use vpstools.Runbooks.Params.{ParamError}
use vpstools.Runbooks.Render.{render_command}
use vpstools.Runbooks.Validate.{environment_allowed}
use vpstools.Runners.Denial.{past_denial}
use vpstools.Runners.Reply.{Reply}
use vpstools.Executions.Create.Handle.{is_nil}
use vpstools.Executions.Targets.{resolve_targets, target_environment}
use vpstools.Approvals.Request.{
  RunRequest, Outside, find_published, role_allowed_in_list, runbook_targets_allowed,
}
use vpstools.Approvals.Plan.{Plan, rendered, make_plan}

-- What is true of a plan when its tables are read.
pub record IsPlanned (env : Env) (out : Outside) (actor : Actor) (name : String) (q : RunRequest)
    (db : Db) (p : Plan) : Type 0 where
  pub requested : p.request ≡ q
  -- the runbook is published, of the organisation, and this is its current version
  pub published : find_published name actor.organisation_id db ≡ some (p.runbook, p.version)
  pub permitted : role_allowed_in_list out actor.role p.version.allowed_roles ≡ true
  pub defined : p.version.definition ≡ some p.definition
  -- at least one server, all of the one environment
  pub named : resolve_targets env actor.organisation_id q.target db ≡ p.ids
  pub not_empty : is_nil p.ids ≡ false
  pub one_environment :
      target_environment env actor.organisation_id p.ids db ≡ (p.environment, false)
  pub environment_fits : environment_allowed p.definition p.environment ≡ true
  pub targets_fit : runbook_targets_allowed env actor.organisation_id p.definition p.ids db ≡ true
  pub rendering : render_command out.texts p.definition q.params ≡ accepted p.command

module _ {P : Db → Type 0} {Q : Plan → Db → Type 0} where
  past_rendered :
      (out : Outside) (c : Checked ParamError String) (k : String → Action Reply Plan)
      → ((command : String) → c ≡ accepted command → Ends P (k command) Q)
      → Ends P (rendered out c >>= k) Q
  unfolding rendered ◌>>=◌
  past_rendered out (accepted command) k h = record { run = (h command refl).run }
  past_rendered out (rejected e) k h = record { run = λ db p a f. cc f }

passed_both : (a b : Bool) → not (a && b) ≡ false → (a ≡ true) × (b ≡ true)
passed_both a b h = ground arith

module _ (env : Env) (out : Outside) (actor : Actor) (name : String) (q : RunRequest)
    (key hash : String) (before : Db) where
  pub make_plan-IsPlanned :
      Ends
        (λ db. db ≡ before)
        (make_plan env out actor name q key hash)
        (λ p db. IsPlanned env out actor name q before p × (db ≡ before))
  unfolding make_plan
  make_plan-IsPlanned = past_refuse _ _ _ (λ fine. past_read _ _ (
      past_or_raise _ _ _ (λ (row, version) found. past_refuse _ _ _ (λ has_id.
        past_denial _ _ _ _ _ _ _ _ (λ permitted. past_or_raise _ _ _ (λ definition defined.
          past_read _ _ (
            past_refuse _ _ _ (λ not_empty. past_read _ _ (
              past_refuse _ _ _ (λ one. past_read _ _ (
                past_denial _ _ _ _ _ _ _ _ (λ fits. past_rendered _ _ _ (λ command rendering.
                  past_refuse _ _ _ (λ not_blank. past_read _ _ (
                    past_refuse _ _ _ (λ taken. end_pure _ (λ db same. (
                      record {
                        requested = refl;
                        published = found;
                        permitted = ground (arith, permitted);
                        defined = defined;
                        named = refl;
                        not_empty = not_empty;
                        one_environment =
                            ap
                              (λ b. (
                                (target_environment env actor.organisation_id
                                    (resolve_targets env actor.organisation_id q.target before)
                                    before).0,
                                b,
                              ))
                              one;
                        environment_fits = (passed_both _ _ fits).0;
                        targets_fit = (passed_both _ _ fits).1;
                        rendering = rendering;
                      },
                      same,
                    ))))))))))))))))))
