-- ===== src/Approvals/Settled/Reach.antt =====
-- Approval requests as a transition system: runs, decisions and raw commands in any order, each with
-- its own clock and failures, between changes by the other handlers (apps/api/runbooks.go).
use vpstools.Base.{◌≡◌, ap, sym, ◌∙◌, refl, String, Option, List, [], ◌∷◌, map, holds, arith}
use vpstools.Base.Table.{count}
use vpstools.Store.Rows.{Db, Execution}
use vpstools.Store.Action.{Env}
use vpstools.Authz.{Actor}
use vpstools.Runners.Reply.{respond}
use vpstools.Approvals.Request.{RunRequest, Outside}
use vpstools.Approvals.Run.{handle_run_runbook}
use vpstools.Approvals.Decide.{handle_approve, handle_deny}
use vpstools.Approvals.Settled.{IsSettled, carries}
use vpstools.Approvals.Settled.Handlers.{run_runbook-IsSettled, deny_request-IsSettled}
use vpstools.Approvals.Settled.Approving.{approve-IsSettled}

-- For which request each execution was created.
abbrev pub origins : Db → List (Option String)
origins db = map (λ e. e.approval_id) db.executions

pub data Step (db : Db) : Db → Type 0 where
  run :
      (env : Env) (out : Outside) (actor : Actor) (name header : String) (q : RunRequest)
      → Step db (handle_run_runbook env out actor name header q db).1
  approval :
      (env : Env) (out : Outside) (actor : Actor) (id note : String)
      → Step db (handle_approve env out actor id note db).1
  denial :
      (env : Env) (out : Outside) (actor : Actor) (id note : String)
      → Step db (handle_deny env out actor id note db).1
  -- a handler that neither adds an execution nor touches a request
  other : (after : Db) → origins after ≡ origins db → after.approvals ≡ db.approvals → Step db after

pub data Reaches (start : Db) : Db → Type 0 where
  here : Reaches start start
  next : {db after : Db} → Reaches start db → Step db after → Reaches start after

count-origins :
    (x : String) (l : List Execution)
    → count (carries x) l ≡ count (λ o. holds o x) (map (λ e. e.approval_id) l)
unfolding count
count-origins x [] = refl
count-origins x (e ∷ l) = ground (arith, count-origins x l)

Step-IsSettled : {db after : Db} → Step db after → IsSettled db → IsSettled after
unfolding handle_run_runbook handle_approve handle_deny respond
Step-IsSettled {db} (run env out actor name header q) h =
    (run_runbook-IsSettled env out actor name header q).run db h
Step-IsSettled {db} (approval env out actor id note) h =
    (approve-IsSettled env out actor id note).run db h
Step-IsSettled {db} (denial env out actor id note) h =
    (deny_request-IsSettled env out actor id note).run db h
Step-IsSettled {db} (other after same_origins same_approvals) h = λ x. rw same_approvals (
  count-origins x after.executions
      ∙ ap (count (λ o. holds o x)) same_origins
      ∙ sym (count-origins x db.executions)
      ∙ (h x).0,
  (h x).1,
)

-- From tables where it holds, however runs of runbooks, approvals and denials follow one another, with
-- any statements failing, and whatever the handlers between them change without adding an execution or
-- touching a request: every request that was approved has exactly one execution, no other request has
-- any, and no two requests have one id.
pub Reaches-IsSettled : {start db : Db} → IsSettled start → Reaches start db → IsSettled db
Reaches-IsSettled h here = h
Reaches-IsSettled h (next r s) = Step-IsSettled s (Reaches-IsSettled h r)
