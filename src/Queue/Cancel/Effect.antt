-- ===== src/Queue/Cancel/Effect.antt =====
-- What a cancellation does (apps/api/executions.go).
use vpstools.Base.{
  ◌≡◌, String, false, not, none, some, arith, inl, inr, Option-cases, ◌==◌, ◌&&◌, if◌then◌else◌, [],
}
use vpstools.Base.Table.{find, update}
use vpstools.Store.Status.{cancelled}
use vpstools.Store.Rows.{Db, Execution}
use vpstools.Store.Action.{Env, ◌>>=◌}
use vpstools.Authz.{Actor}
use vpstools.Audit.Write.{write_audit_event-audit}
use vpstools.Runners.Reply.{Reply, status, respond}
use vpstools.Queue.Cancel.{
  can_manage_execution, can_cancel, cancel_execution, handle_cancel_execution,
}

module _ (env : Env) (lower_trim : String → String) (actor : Actor) (id : String) (db : Db) where
  abbrev Done : Type 0
  Done = (handle_cancel_execution env lower_trim actor id db).0 ≡ status 200 "cancelled"

  -- The tables after the first statement.
  abbrev marked : Db
  marked = record db {
    executions =
        update (can_cancel id actor.organisation_id)
          (λ x. record x { status = cancelled; finished_at = some env.now }) db.executions;
  }

  not_found : find (can_cancel id actor.organisation_id) db.executions ≡ none → ¬ Done
  unfolding handle_cancel_execution cancel_execution respond ◌>>=◌
  not_found n h = ground arith

  found_effect :
      (e : Execution)
      → find (can_cancel id actor.organisation_id) db.executions ≡ some e
      → Done
      → ((not (actor.user_id == e.actor_user_id)
            && not (can_manage_execution lower_trim actor.role))
          ≡ false)
        × ((handle_cancel_execution env lower_trim actor id db).1.executions
            ≡ update
                (can_cancel id actor.organisation_id)
                (λ x. record x { status = cancelled; finished_at = some env.now })
                db.executions)
        × ((handle_cancel_execution env lower_trim actor id db).1.targets ≡ (
            if env.fails "cancel targets"
            then db.targets
            else update
                (λ t. t.execution_id == id)
                (λ t. record t { status = cancelled })
                db.targets))
  unfolding handle_cancel_execution cancel_execution respond ◌>>=◌
  found_effect e f h =
      let logged =
        write_audit_event-audit {E = Reply} env actor.organisation_id actor.user_id
          "execution.cancelled" "execution" id "cancelled" [] in
      let kept = logged marked in
      let swept = logged (record marked {
        targets =
            update (λ t. t.execution_id == id) (λ t. record t { status = cancelled }) db.targets;
      }) in
      (ground arith, ground (arith, kept, swept), ground (arith, kept, swept))

  -- The execution that was found, the right to cancel it, and the changes.
  abbrev pub Cancelled : Type 0
  Cancelled =
      (e : Execution) × (find (can_cancel id actor.organisation_id) db.executions ≡ some e)
      × ((not (actor.user_id == e.actor_user_id)
            && not (can_manage_execution lower_trim actor.role))
          ≡ false)
      × ((handle_cancel_execution env lower_trim actor id db).1.executions
          ≡ update (can_cancel id actor.organisation_id)
              (λ x. record x { status = cancelled; finished_at = some env.now }) db.executions)
      × ((handle_cancel_execution env lower_trim actor id db).1.targets ≡ (
          if env.fails "cancel targets"
          then db.targets
          else update (λ t. t.execution_id == id) (λ t. record t { status = cancelled })
              db.targets))

  -- A cancellation that reports success found an execution of the caller's organisation that was created or
  -- queued, and the caller had asked for it or may manage executions. It cancels every execution with
  -- that id and state; its targets, whatever their state, are cancelled too, unless the second
  -- statement fails, which no one is told.
  pub cancellation :
      (handle_cancel_execution env lower_trim actor id db).0 ≡ status 200 "cancelled" → Cancelled
  cancellation h = elim (Option-cases (find (can_cancel id actor.organisation_id) db.executions)) [
    | inl n ↦ absurd (not_found n h)
    | inr (e, f) ↦ let effect = found_effect e f h in (e, f, effect.0, effect.1, effect.2)
  ]
