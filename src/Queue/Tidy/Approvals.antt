-- ===== src/Queue/Tidy/Approvals.antt =====
-- The invariant of the targets across runs of runbooks and decisions on their requests
-- (apps/api/runbooks.go).
use vpstools.Base.{ℕ, String}
use vpstools.Store.Rows.{Db}
use vpstools.Store.Action.{Env}
use vpstools.Store.Keeps.{Keeps, keeps_rules}
use vpstools.Authz.{Actor}
use vpstools.Runners.Reply.{respond}
use vpstools.Approvals.Request.{RunRequest, Outside, replay_runbook_idempotency}
use vpstools.Approvals.Plan.{Plan, make_plan}
use vpstools.Approvals.Run.{
  insert_runbook_key, approval_tx, run_tx, request_approval, run_directly, carry_out, run_new,
  run_runbook, handle_run_runbook,
}
use vpstools.Approvals.Kept.{commit_or_replay-Keeps, rendered-Keeps, unless_replayed-Keeps}
use vpstools.Approvals.Decide.{
  mark, undecided, create_execution_from_approval, approve_tx, approve, handle_approve,
  deny_request, handle_deny,
}
use vpstools.Store.Catalogue.{ApprovalRequest, ApprovalStatus}
use vpstools.Queue.Tidy.{IsTidy, others_move, tidy_rules}
use vpstools.Queue.Tidy.Creation.{write_denial-IsTidy, insert_targets-IsTidy}

ruleset approval_rules = (
  tidy_rules, others_move, write_denial-IsTidy, insert_targets-IsTidy, commit_or_replay-Keeps,
  rendered-Keeps,
)

module _ (env : Env) (out : Outside) (actor : Actor) where
  insert_runbook_key-IsTidy :
      (p : Plan) (resource id : String) (status : ℕ) (body : String)
      → Keeps IsTidy (insert_runbook_key env actor p resource id status body)
  unfolding insert_runbook_key
  insert_runbook_key-IsTidy p resource id status body = search approval_rules

  approval_tx-IsTidy : (p : Plan) → Keeps IsTidy (approval_tx env out actor p)
  unfolding approval_tx
  approval_tx-IsTidy p = search (approval_rules, insert_runbook_key-IsTidy) depth 30

  run_tx-IsTidy : (p : Plan) → Keeps IsTidy (run_tx env out actor p)
  unfolding run_tx
  run_tx-IsTidy p = search (approval_rules, insert_runbook_key-IsTidy) depth 30

  carry_out-IsTidy : (p : Plan) → Keeps IsTidy (carry_out env out actor p)
  unfolding carry_out request_approval run_directly
  carry_out-IsTidy p = search (approval_rules, approval_tx-IsTidy, run_tx-IsTidy) depth 20

  make_plan-IsTidy :
      (name : String) (q : RunRequest) (key hash : String)
      → Keeps IsTidy (make_plan env out actor name q key hash)
  unfolding make_plan
  make_plan-IsTidy name q key hash = search approval_rules depth 40

  run_runbook-IsTidy :
      (name header : String) (q : RunRequest)
      → Keeps IsTidy (run_runbook env out actor name header q)
  unfolding run_runbook run_new replay_runbook_idempotency
  run_runbook-IsTidy name header q =
      search (keeps_rules, unless_replayed-Keeps, make_plan-IsTidy, carry_out-IsTidy) depth 20

  mark-IsTidy :
      (decision : ApprovalStatus) (id note : String)
      → Keeps IsTidy (mark env actor decision id note)
  unfolding mark
  mark-IsTidy decision id note = search approval_rules

  create_execution_from_approval-IsTidy :
      (id : String) (a : ApprovalRequest)
      → Keeps IsTidy (create_execution_from_approval env out actor id a)
  unfolding create_execution_from_approval
  create_execution_from_approval-IsTidy id a = search approval_rules depth 30

  approve_tx-IsTidy :
      (id note : String) (a : ApprovalRequest) → Keeps IsTidy (approve_tx env out actor id note a)
  unfolding approve_tx undecided
  approve_tx-IsTidy id note a =
      search (approval_rules, mark-IsTidy, create_execution_from_approval-IsTidy) depth 30

  pub handle_run_runbook-IsTidy :
      (name header : String) (q : RunRequest) (db : Db)
      → IsTidy db
      → IsTidy (handle_run_runbook env out actor name header q db).1
  unfolding handle_run_runbook respond
  handle_run_runbook-IsTidy name header q = (run_runbook-IsTidy name header q).run

  approve-IsTidy : (id note : String) → Keeps IsTidy (approve env out actor id note)
  unfolding approve
  approve-IsTidy id note = search (approval_rules, approve_tx-IsTidy) depth 30

  pub handle_approve-IsTidy :
      (id note : String) (db : Db) → IsTidy db → IsTidy (handle_approve env out actor id note db).1
  unfolding handle_approve respond
  handle_approve-IsTidy id note = (approve-IsTidy id note).run

  deny_request-IsTidy : (id note : String) → Keeps IsTidy (deny_request env out actor id note)
  unfolding deny_request undecided
  deny_request-IsTidy id note = search (approval_rules, mark-IsTidy) depth 30

  pub handle_deny-IsTidy :
      (id note : String) (db : Db) → IsTidy db → IsTidy (handle_deny env out actor id note db).1
  unfolding handle_deny respond
  handle_deny-IsTidy id note = (deny_request-IsTidy id note).run
