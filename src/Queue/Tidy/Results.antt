-- ===== src/Queue/Tidy/Results.antt =====
-- The invariant of the targets across a submitted result (apps/api/jobs.go).
use vpstools.Base.{ℕ, ◌+◌, ◌≡◌, String, Bool, true, ◌&&◌, Option, none, some, arith, ◌==◌}
use vpstools.Base.Table.{update}
use vpstools.Store.Status.{Status, is_failed}
use vpstools.Store.Rows.{Db, Target, Receipt}
use vpstools.Store.Action.{Env, modify}
use vpstools.Store.Keeps.{Keeps}
use vpstools.Runners.Reply.{Reply, respond}
use vpstools.Runners.Auth.{authenticate_runner_credential}
use vpstools.Runners.Auth.Binding.{authenticate_runner_credential-unchanged}
use vpstools.Queue.Backoff.{retry_backoff_seconds}
use vpstools.Queue.Submit.{
  Submission, Outside, is_owned, finish, explain, retry_at, outcome, store_artifact, persist_in,
  persist_execution_artifacts, insert_result_receipt, schedule_retry,
}
use vpstools.Queue.Submit.Handle.{
  store_result, finalize_execution, complete, mark_dead_letter, apply_result, replay, on_receipt,
  result_tx, submit_result, accept_result, handle_submit_result,
}
use vpstools.Queue.Tidy.{is_tidy, IsTidy, targets_move, others_move, tidy_rules}
use vpstools.Queue.Tidy.Steps.{authenticate_bound_runner-IsTidy}

finished :
    (env : Env) (out : Outside) (q : Submission) (ids : String × String) (t u : Target)
    → is_tidy t ≡ true
    → is_tidy (finish env out q ids (outcome q u) t) ≡ true
finished env out q ids t u h = ground arith

explained : (t : Target) → is_tidy t ≡ true → is_tidy (explain t) ≡ true
explained t h = ground arith

retried : (at : ℕ) (t : Target) → is_tidy t ≡ true → is_tidy (retry_at at t) ≡ true
retried at t h = ground arith

authenticate_runner_credential-IsTidy :
    (env : Env) (token : String) → Keeps IsTidy (authenticate_runner_credential env token)
authenticate_runner_credential-IsTidy env token = record {
  run = λ db h. rw (authenticate_runner_credential-unchanged env token db) h;
}

module _ (env : Env) (out : Outside) (org : String) where
  store_artifact-IsTidy :
      (put : String → String → Bool) (q : Submission) (kind value : String)
      → Keeps IsTidy (store_artifact env out put org q kind value)
  unfolding store_artifact
  store_artifact-IsTidy put q kind value = search (tidy_rules, others_move) depth 20

  persist_in-IsTidy :
      (q : Submission) (put : Option (String → String → Bool))
      → Keeps IsTidy (persist_in env out org q put)
  unfolding persist_in
  persist_in-IsTidy q none = search tidy_rules
  persist_in-IsTidy q (some put) = search (tidy_rules, store_artifact-IsTidy)

  persist-IsTidy : (q : Submission) → Keeps IsTidy (persist_execution_artifacts env out org q)
  unfolding persist_execution_artifacts
  persist-IsTidy q = persist_in-IsTidy q out.put

  insert_result_receipt-IsTidy :
      (q : Submission) (hash body : String)
      → Keeps IsTidy (insert_result_receipt env org q hash body)
  unfolding insert_result_receipt
  insert_result_receipt-IsTidy q hash body = search (tidy_rules, others_move) depth 20

  schedule_retry-IsTidy :
      (q : Submission) (hash : String) (t : Target) → Keeps IsTidy (schedule_retry env org q hash t)
  unfolding schedule_retry
  schedule_retry-IsTidy q hash t =
      search
        (
          tidy_rules,
          insert_result_receipt-IsTidy,
          targets_move (λ db x. x.id == q.target_id && is_failed x.status)
              (retry_at (env.now + retry_backoff_seconds t.attempt))
              (λ db x h p. retried (env.now + retry_backoff_seconds t.attempt) x h),
        )
        depth 20

  finalize_execution-IsTidy :
      (q : Submission) (to : Status) → Keeps IsTidy (finalize_execution env org q to)
  unfolding finalize_execution
  finalize_execution-IsTidy q to = search (tidy_rules, others_move) depth 20

  complete-IsTidy :
      (q : Submission) (hash : String) (t : Target) (to : Status)
      → Keeps IsTidy (complete env org q hash t to)
  unfolding complete
  complete-IsTidy q hash t to =
      search (tidy_rules, insert_result_receipt-IsTidy, finalize_execution-IsTidy) depth 20

  mark_dead_letter-IsTidy : (q : Submission) → Keeps IsTidy (mark_dead_letter env q)
  unfolding mark_dead_letter
  mark_dead_letter-IsTidy q =
      search
        (tidy_rules, targets_move (λ db x. x.id == q.target_id) explain (λ db x h p. explained x h))

  stored-IsTidy :
      (q : Submission) (ids : String × String) (t : Target)
      → Keeps {E = Reply} IsTidy (
          modify (λ db. record db {
            targets = update (is_owned org q db) (finish env out q ids (outcome q t)) db.targets;
          }))
  stored-IsTidy q ids t =
      targets_move (λ db. is_owned org q db) _ (λ db x h p. finished env out q ids x t h)

  apply_result-IsTidy :
      (q : Submission) (hash : String) → Keeps IsTidy (apply_result env out org q hash)
  unfolding apply_result store_result
  apply_result-IsTidy q hash =
      search
        (
          tidy_rules, persist-IsTidy, stored-IsTidy, mark_dead_letter-IsTidy, schedule_retry-IsTidy,
          complete-IsTidy,
        )
        depth 20

  on_receipt-IsTidy :
      (q : Submission) (hash : String) (r : Option Receipt)
      → Keeps IsTidy (on_receipt env out org q hash r)
  unfolding on_receipt replay
  on_receipt-IsTidy q hash none = apply_result-IsTidy q hash
  on_receipt-IsTidy q hash (some r) = search tidy_rules

  submit_result-IsTidy : (q : Submission) → Keeps IsTidy (submit_result env out org q)
  unfolding submit_result result_tx
  submit_result-IsTidy q = search (tidy_rules, on_receipt-IsTidy)

accept_result-IsTidy :
    (env : Env) (out : Outside) (bearer : String) (body : Option Submission)
    → Keeps IsTidy (accept_result env out bearer body)
unfolding accept_result
accept_result-IsTidy env out bearer body =
    search
      (
        tidy_rules, authenticate_runner_credential-IsTidy, authenticate_bound_runner-IsTidy,
        submit_result-IsTidy,
      )
      depth 20

pub handle_submit_result-IsTidy :
    (env : Env) (out : Outside) (bearer : String) (body : Option Submission) (db : Db)
    → IsTidy db
    → IsTidy (handle_submit_result env out bearer body db).1
unfolding handle_submit_result respond
handle_submit_result-IsTidy env out bearer body db h =
    (accept_result-IsTidy env out bearer body).run db h
