-- ===== src/Approvals/Outcome.antt =====
-- What a run of a runbook needs and leads to (apps/api/runbooks.go).
use vpstools.Base.{
  ℕ, ◌≡◌, ◌⊎◌, refl, ap, String, true, false, List, [], ◌∷◌, ◌++◌, map, arith, ◌==◌, inl, inr,
}
use vpstools.Store.Catalogue.{ApprovalRequest}
use vpstools.Store.Rows.{Db, Execution, Target}
use vpstools.Store.Action.{Action, Env, Result, ok, err, pure, transaction, settle}
use vpstools.Store.Keeps.{Keeps, keeps_rules}
use vpstools.Store.Ends.{Ends, Ends-then, Ends-bind, Ends-modify}
use vpstools.Store.Paths.{past_refuse, past_if, end_pure, Ends-kept_to}
use vpstools.Authz.{Actor}
use vpstools.Authz.Policy.{check_runbook_execution}
use vpstools.Runners.Denial.{past_denial}
use vpstools.Runners.Reply.{Reply}
use vpstools.Executions.Create.{CreateError, new_target}
use vpstools.Approvals.Request.{RunRequest, Outside}
use vpstools.Approvals.Plan.{Plan}
use vpstools.Approvals.Run.{
  new_approval, runbook_execution, insert_runbook_key, approval_tx, run_tx, settle_conflict,
  commit_or_replay, request_approval, run_directly, needs, carry_out, run_new,
}
use vpstools.Approvals.Kept.{settle_conflict-Keeps}
use vpstools.Approvals.Planned.{IsPlanned, make_plan-IsPlanned}
use vpstools.Approvals.Granted.{Frame, logged, event_kept, audit_kept, insert_targets-adds}

-- How a run that succeeds ends. A key that another request has taken in the meantime is answered from
-- what that request left.
pub data Outcome (env : Env) (out : Outside) (actor : Actor) (before : Db) (p : Plan) (after : Db)
    : Type 0 where
  previewed : p.request.dry_run ≡ true → after ≡ before → Outcome env out actor before p after
  answered : p.request.dry_run ≡ false → after ≡ before → Outcome env out actor before p after
  awaiting :
      p.request.dry_run ≡ false
      → needs actor p ≡ true
      → (out.texts.trim p.request.reason == "") ≡ false
      → Frame before.executions before.targets
          (before.approvals ++ new_approval env out actor p ∷ [])
          after
      → Outcome env out actor before p after
  started :
      p.request.dry_run ≡ false
      → needs actor p ≡ false
      → (check_runbook_execution actor p.environment p.version.risk_level p.request.reason).allowed
        ≡ true
      → Frame
          (before.executions ++ runbook_execution env out actor p ∷ [])
          (before.targets ++ map (new_target env actor.organisation_id) p.ids)
          before.approvals
          after
      → Outcome env out actor before p after

module _ (env : Env) (out : Outside) (actor : Actor) (p : Plan) where
  key_kept :
      (es : List Execution) (ts : List Target) (qs : List ApprovalRequest) (resource id : String)
      (status : ℕ) (body : String)
      → Keeps (Frame es ts qs) (insert_runbook_key env actor p resource id status body)
  unfolding insert_runbook_key
  key_kept es ts qs resource id status body = search (keeps_rules, logged)

  approval_tx-adds :
      (es : List Execution) (ts : List Target) (qs : List ApprovalRequest)
      → Ends
          (Frame es ts qs)
          (approval_tx env out actor p)
          (λ r. Frame es ts (qs ++ new_approval env out actor p ∷ []))
  unfolding approval_tx
  approval_tx-adds es ts qs = Ends-bind _ _ (search keeps_rules) (λ known.
      past_refuse _ _ _ (λ fresh.
        Ends-then _ _
          (Ends-modify {Q = Frame es ts (qs ++ new_approval env out actor p ∷ [])} _
            (λ db h. (h.0, h.1, ap (λ l. l ++ new_approval env out actor p ∷ []) h.2)))
          (λ u. Ends-kept_to _ (search (keeps_rules, audit_kept, key_kept) depth 20) (λ db h. h))))

  run_tx-adds :
      (es : List Execution) (ts : List Target) (qs : List ApprovalRequest)
      → Ends (Frame es ts qs) (run_tx env out actor p) (λ r.
        Frame
          (es ++ runbook_execution env out actor p ∷ [])
          (ts ++ map (new_target env actor.organisation_id) p.ids)
          qs)
  unfolding run_tx
  run_tx-adds es ts qs = past_refuse _ _ _ (λ fine.
      Ends-then _ _
        (Ends-modify {Q = Frame (es ++ runbook_execution env out actor p ∷ []) ts qs} _
          (λ db h. (ap (λ l. l ++ runbook_execution env out actor p ∷ []) h.0, h.1, h.2)))
        (λ u. Ends-then _ _ (insert_targets-adds env _ _ _ _ _) (λ v.
          Ends-kept_to _ (search (keeps_rules, event_kept, audit_kept, key_kept) depth 20)
            (λ db h. h))))

  commit_or_replay-Ends :
      (before : Db) (m : Action CreateError Reply) (R : Db → Type 0)
      → Ends (λ db. db ≡ before) m (λ r. R)
      → Ends (λ db. db ≡ before) (commit_or_replay env actor p m) (λ r db. R db ⊎ (db ≡ before))
  unfolding commit_or_replay transaction settle_conflict pure
  commit_or_replay-Ends before m R em = record {
    run = λ db same r e. go db same r (m db).0 (m db).1 (em.run db same) e;
  }
    where
      go :
          (db : Db)
          → db ≡ before
          → (r : Reply) (x : Result CreateError Reply) (after : Db)
          → ((a : Reply) → x ≡ ok a → R after)
          → (settle_conflict env actor p (settle db x after).0 (settle db x after).1).0 ≡ ok r
          → R (settle_conflict env actor p (settle db x after).0 (settle db x after).1).1
            ⊎ ((settle_conflict env actor p (settle db x after).0 (settle db x after).1).1 ≡ before)
      go db same r (ok a) after reached e = inl (reached a refl)
      go db same r (err x) after reached e =
          inr ((settle_conflict-Keeps {P = λ d. d ≡ before} env actor p (err x)).run db same)

  -- The three ways on from a plan.
  carry_out-Outcome :
      (before : Db)
      → Ends (λ db. db ≡ before) (carry_out env out actor p) (λ r. Outcome env out actor before p)
  unfolding carry_out request_approval run_directly
  carry_out-Outcome before =
      past_if _ _ _ (λ dry. end_pure _ (λ db same. previewed dry same))
        (λ submitted.
          past_if _ _ _
            (λ needed. past_refuse _ _ _ (λ reason. past_refuse _ _ _ (λ begun. record {
              run = λ db same r e. ended_awaiting submitted needed reason (
                  (commit_or_replay-Ends before _ _ (
                      framed before _ _
                        (approval_tx-adds before.executions before.targets before.approvals))).run
                    db same r e);
            })))
            (λ free. past_denial _ _ _ _ _ _ _ _ (λ allowed. past_refuse _ _ _ (λ begun. record {
              run = λ db same r e. ended_started submitted free (ground (arith, allowed)) (
                  (commit_or_replay-Ends before _ _ (
                      framed before _ _
                        (run_tx-adds before.executions before.targets before.approvals))).run
                    db same r e);
            }))))
    where
      framed :
          (d : Db) (m : Action CreateError Reply) (R : Db → Type 0)
          → Ends (Frame d.executions d.targets d.approvals) m (λ r. R)
          → Ends (λ db. db ≡ d) m (λ r. R)
      framed d m R em = record {
        run = λ db same.
            em.run db
              (ap (λ x. x.executions) same, ap (λ x. x.targets) same, ap (λ x. x.approvals) same);
      }

      ended_awaiting :
          {after : Db}
          → p.request.dry_run ≡ false
          → needs actor p ≡ true
          → (out.texts.trim p.request.reason == "") ≡ false
          → Frame before.executions before.targets
              (before.approvals ++ new_approval env out actor p ∷ [])
              after
            ⊎ (after ≡ before)
          → Outcome env out actor before p after
      ended_awaiting submitted needed reason (inl f) = awaiting submitted needed reason f
      ended_awaiting submitted needed reason (inr same) = answered submitted same

      ended_started :
          {after : Db}
          → p.request.dry_run ≡ false
          → needs actor p ≡ false
          → (check_runbook_execution actor p.environment p.version.risk_level
              p.request.reason).allowed
            ≡ true
          → Frame
              (before.executions ++ runbook_execution env out actor p ∷ [])
              (before.targets ++ map (new_target env actor.organisation_id) p.ids)
              before.approvals
              after
            ⊎ (after ≡ before)
          → Outcome env out actor before p after
      ended_started submitted free allowed (inl f) = started submitted free allowed f
      ended_started submitted free allowed (inr same) = answered submitted same

-- A request to run a runbook that succeeds and repeats no key: the runbook is published and its current
-- version allows the actor's role, the targets are servers of one environment on which it is allowed,
-- and the command is its rendering with the given parameters. A dry run changes nothing. Where approval is
-- needed, a reason was given and only a pending request for that command is added: no execution and no
-- target. Only where it is not needed, and the policy allows it, one execution is added with its
-- targets. If another request has taken the key in the meantime, nothing is changed.
pub run_new-Outcome :
    (env : Env) (out : Outside) (actor : Actor) (name : String) (q : RunRequest) (key hash : String)
    (db : Db) (r : Reply)
    → (run_new env out actor name q key hash db).0 ≡ ok r
    → (p : Plan) × IsPlanned env out actor name q db p
      × Outcome env out actor db p (run_new env out actor name q key hash db).1
unfolding run_new
run_new-Outcome env out actor name q key hash db r h =
    (Ends-then
        {Q = λ r' after.
          (p : Plan) × IsPlanned env out actor name q db p × Outcome env out actor db p after}
        _ _ (make_plan-IsPlanned env out actor name q key hash db)
        (λ p. record {
          run = λ d (planned, same) reply e.
              (p, planned, (carry_out-Outcome env out actor p db).run d same reply e);
        })).run
      db refl r h
