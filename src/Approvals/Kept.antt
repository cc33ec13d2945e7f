-- ===== src/Approvals/Kept.antt =====
-- What the wrappers of handleRunRunbook keep of the tables: whatever their parts keep
-- (apps/api/runbooks.go).
use vpstools.Base.{String, Option, none, some}
use vpstools.Store.Rows.{Db}
use vpstools.Store.Action.{Action, Result, ok, err, Env, pure, raise, transaction}
use vpstools.Store.Keeps.{Keeps, Keeps-transaction}
use vpstools.Authz.{Actor}
use vpstools.Runbooks.Types.{Checked, accepted, rejected}
use vpstools.Runbooks.Params.{ParamError}
use vpstools.Runners.Reply.{Reply}
use vpstools.Executions.Create.{CreateError, refused, key_taken}
use vpstools.Executions.Create.Handle.{answer_conflict, unless_replayed}
use vpstools.Approvals.Request.{Outside, replay_runbook_idempotency}
use vpstools.Approvals.Plan.{Plan, rendered}
use vpstools.Approvals.Run.{settle_conflict, commit_or_replay}

module _ {P : Db → Type 0} where
  answer_conflict-Keeps : (r : Result Reply (Option Reply)) → Keeps P (answer_conflict r)
  unfolding answer_conflict pure raise
  answer_conflict-Keeps (ok (some r)) = record { run = λ db h. h }
  answer_conflict-Keeps (ok none) = record { run = λ db h. h }
  answer_conflict-Keeps (err e) = record { run = λ db h. h }

  pub settle_conflict-Keeps :
      (env : Env) (actor : Actor) (p : Plan) (r : Result CreateError Reply)
      → Keeps P (settle_conflict env actor p r)
  unfolding settle_conflict pure raise
  settle_conflict-Keeps env actor p (ok r) = record { run = λ db h. h }
  settle_conflict-Keeps env actor p (err (refused r)) = record { run = λ db h. h }
  settle_conflict-Keeps env actor p (err key_taken) = record {
    run = λ db h.
        (answer_conflict-Keeps (replay_runbook_idempotency env actor p.key p.hash db).0).run db h;
  }

  pub commit_or_replay-Keeps :
      (env : Env) (actor : Actor) (p : Plan) (m : Action CreateError Reply)
      → Keeps P m
      → Keeps P (commit_or_replay env actor p m)
  unfolding commit_or_replay
  commit_or_replay-Keeps env actor p m km = record {
    run = λ db h.
        (settle_conflict-Keeps env actor p (transaction m db).0).run (transaction m db).1
          ((Keeps-transaction m km).run db h);
  }

  pub rendered-Keeps : (out : Outside) (c : Checked ParamError String) → Keeps P (rendered out c)
  unfolding rendered pure raise
  rendered-Keeps out (accepted command) = record { run = λ db h. h }
  rendered-Keeps out (rejected e) = record { run = λ db h. h }

  pub unless_replayed-Keeps :
      (r : Option Reply) (m : Action Reply Reply) → Keeps P m → Keeps P (unless_replayed r m)
  unfolding unless_replayed pure
  unless_replayed-Keeps none m km = km
  unless_replayed-Keeps (some r) m km = record { run = λ db h. h }
