-- ===== src/Queue/Held/Isolation.antt =====
-- Renewals and results on the row of a running target that another lease holds (apps/api/jobs.go).
use vpstools.Base.{
  ◌+◌, ◌≡◌, refl, ap, String, Bool, true, false, ◌&&◌, Option, none, some, arith, ◌==◌, eq_iff, inl,
  inr, Bool-cases, Option-cases,
}
use vpstools.Base.Table.{find, update}
use vpstools.Base.Table.Laws.{find-true, All-find}
use vpstools.Store.Status.{Status, is_failed}
use vpstools.Store.Rows.{Db, Target, Receipt, Metadata}
use vpstools.Store.Action.{Env, modify, refuse_if, or_raise, ◌>>=◌}
use vpstools.Store.Keeps.{Keeps, keeps_rules}
use vpstools.Audit.{write_audit_event_type, write_audit_event_tx}
use vpstools.Runners.Reply.{Reply, respond}
use vpstools.Runners.Auth.{authenticate_bound_runner, authenticate_runner_credential}
use vpstools.Runners.Auth.Binding.{
  authenticate_bound_runner-unchanged, authenticate_runner_credential-unchanged,
}
use vpstools.Queue.Backoff.{retry_backoff_seconds}
use vpstools.Queue.Renew.{LeaseRequest, renew_for, renew_lease, handle_renew_lease, is_held}
use vpstools.Queue.Submit.{
  Submission, Outside, redacted, is_owned, held_by, finish, explain, retry_at, outcome,
  store_artifact, persist_in, persist_execution_artifacts, insert_result_receipt, schedule_retry,
}
use vpstools.Queue.Submit.Handle.{
  finalize_execution, complete, mark_dead_letter, store_result, apply_result, replay, on_receipt,
  result_tx, submit_result,
}
use vpstools.Queue.Held.{IsStored, row_move, others_move, record_execution_event-IsStored}

module _ (t : Target) where
  bound-IsStored :
      (env : Env) (token runner : String)
      → Keeps (IsStored t) (authenticate_bound_runner env token runner)
  bound-IsStored env token runner = record {
    run = λ db h. rw (authenticate_bound_runner-unchanged env token runner db) h;
  }

  credential-IsStored :
      (env : Env) (token : String) → Keeps (IsStored t) (authenticate_runner_credential env token)
  credential-IsStored env token = record {
    run = λ db h. rw (authenticate_runner_credential-unchanged env token db) h;
  }

  renew_for-IsStored :
      (env : Env) (bearer : String) (q : LeaseRequest)
      → is_held q t ≡ false
      → Keeps (IsStored t) (renew_for env bearer q)
  unfolding renew_for
  renew_for-IsStored env bearer q other =
      search
        (
          keeps_rules,
          bound-IsStored,
          row_move t (λ db. is_held q) (λ x. record x { lease_expires_at = some (env.now + 300) })
              (λ x. refl) (λ db. other),
        )
        depth 20

  module _ (env : Env) (out : Outside) (org : String) (q : Submission) where
    write_audit_event_tx-IsStored :
        (user action target_type target result : String) (metadata : Metadata)
        → Keeps
            (IsStored t)
            (write_audit_event_tx env org user action target_type target result metadata)
    unfolding write_audit_event_tx write_audit_event_type
    write_audit_event_tx-IsStored user action target_type target result metadata =
        search (keeps_rules, others_move t)

    store_artifact-IsStored :
        (put : String → String → Bool) (kind value : String)
        → Keeps (IsStored t) (store_artifact env out put org q kind value)
    unfolding store_artifact
    store_artifact-IsStored put kind value = search (keeps_rules, others_move t) depth 20

    persist_in-IsStored :
        (put : Option (String → String → Bool)) → Keeps (IsStored t) (persist_in env out org q put)
    unfolding persist_in
    persist_in-IsStored none = search keeps_rules
    persist_in-IsStored (some put) = search (keeps_rules, store_artifact-IsStored)

    persist-IsStored : Keeps (IsStored t) (persist_execution_artifacts env out org q)
    unfolding persist_execution_artifacts
    persist-IsStored = persist_in-IsStored out.put

    receipt-IsStored :
        (hash body : String) → Keeps (IsStored t) (insert_result_receipt env org q hash body)
    unfolding insert_result_receipt
    receipt-IsStored hash body = search (keeps_rules, others_move t) depth 20

    finalize-IsStored : (to : Status) → Keeps (IsStored t) (finalize_execution env org q to)
    unfolding finalize_execution
    finalize-IsStored to = search (keeps_rules, others_move t) depth 20

    complete-IsStored :
        (hash : String) (u : Target) (to : Status)
        → Keeps (IsStored t) (complete env org q hash u to)
    unfolding complete
    complete-IsStored hash u to =
        search
          (
            keeps_rules,
            record_execution_event-IsStored t env org,
            write_audit_event_tx-IsStored,
            receipt-IsStored,
            finalize-IsStored,
          )
          depth 30

    module _ (other : (t.id == q.target_id) ≡ false) where
      schedule_retry-IsStored :
          (hash : String) (u : Target) → Keeps (IsStored t) (schedule_retry env org q hash u)
      unfolding schedule_retry
      schedule_retry-IsStored hash u =
          search
            (
              keeps_rules,
              record_execution_event-IsStored t env org,
              write_audit_event_tx-IsStored,
              receipt-IsStored,
              row_move t (λ db x. x.id == q.target_id && is_failed x.status)
                  (retry_at (env.now + retry_backoff_seconds u.attempt)) (λ x. refl)
                  (λ db. ground (arith, other)),
            )
            depth 20

      dead-IsStored : Keeps (IsStored t) (mark_dead_letter env q)
      unfolding mark_dead_letter
      dead-IsStored =
          search (
            keeps_rules,
            row_move t (λ db x. x.id == q.target_id) explain (λ x. refl) (λ db. other),
          )

      result_row-IsStored :
          (ids : String × String) (u : Target)
          → Keeps {E = Reply} (IsStored t) (
              modify (λ db. record db {
                targets =
                    update (is_owned org q db) (finish env out q ids (outcome q u)) db.targets;
              }))
      result_row-IsStored ids u =
          row_move t (λ db. is_owned org q db) (finish env out q ids (outcome q u)) (λ x. refl)
            (λ db. ground (arith, other))

      store_result-IsStored :
          (hash : String) (u : Target) → Keeps (IsStored t) (store_result env out org q hash u)
      unfolding store_result
      store_result-IsStored hash u =
          search
            (
              keeps_rules, persist-IsStored, result_row-IsStored, dead-IsStored,
              schedule_retry-IsStored, complete-IsStored,
            )
            depth 20

    module _ (foreign : held_by q t ≡ false) where
      -- The target that holds the lease of the result is another one.
      other_id :
          (db : Db) (u : Target)
          → IsStored t db
          → find (held_by q) db.targets ≡ some u
          → (t.id == q.target_id) ≡ false
      other_id db u h found = elim (Bool-cases (t.id == q.target_id)) [
        | inr e ↦ e
        | inl e ↦
            let held = find-true (held_by q) db.targets u found in
            let same_id : (u.id == t.id) ≡ true = ground (
              arith,
              e,
              held,
              eq_iff t.id q.target_id,
              eq_iff u.id q.target_id,
              eq_iff u.id t.id,
            ) in
            let same =
              All-find (λ x. (x.id == t.id) ≡ true → x ≡ t) (held_by q) db.targets u h.1 found
                same_id in
            ground (arith, ap (held_by q) same, held, foreign)
      ]

      apply_result-IsStored : (hash : String) → Keeps (IsStored t) (apply_result env out org q hash)
      unfolding apply_result ◌>>=◌
      apply_result-IsStored hash = record {
        run = λ db h. elim (Bool-cases (env.fails "read target")) [
          | inl down ↦ rw (down, refuse_if) h
          | inr up ↦ elim (Option-cases (find (held_by q) db.targets)) [
            | inl lost ↦ rw (up, refuse_if, lost, or_raise) h
            | inr (u, found) ↦
                rw (up, refuse_if, found, or_raise)
                  ((store_result-IsStored (other_id db u h found) hash u).run db h)
          ]
        ];
      }

      on_receipt-IsStored :
          (hash : String) (r : Option Receipt)
          → Keeps (IsStored t) (on_receipt env out org q hash r)
      unfolding on_receipt replay
      on_receipt-IsStored hash none = apply_result-IsStored hash
      on_receipt-IsStored hash (some r) = search keeps_rules

      result_tx-IsStored : (hash : String) → Keeps (IsStored t) (result_tx env out org q hash)
      unfolding result_tx
      result_tx-IsStored hash = search (keeps_rules, on_receipt-IsStored)

  submit_result-IsStored :
      (env : Env) (out : Outside) (org : String) (q : Submission)
      → held_by q t ≡ false
      → Keeps (IsStored t) (submit_result env out org q)
  unfolding submit_result
  submit_result-IsStored env out org q foreign =
      search (keeps_rules, result_tx-IsStored env out org (redacted out q) foreign)

  -- A row that neither the renewal nor the result holds (each names another target, execution,
  -- runner or lease, or the row is not running) is not touched by either: it stays in the table
  -- as it is, and the only one with its id.
  pub foreign_lease_isolated :
      (env : Env) (out : Outside) (bearer org : String) (renewed : LeaseRequest) (q : Submission)
      (db : Db)
      → is_held renewed t ≡ false
      → held_by q t ≡ false
      → IsStored t db
      → IsStored t (handle_renew_lease env bearer (some renewed) db).1
        × IsStored t (submit_result env out org q db).1
  unfolding handle_renew_lease renew_lease respond ◌>>=◌
  foreign_lease_isolated env out bearer org renewed q db other foreign h = (
    (renew_for-IsStored env bearer renewed other).run db h,
    (submit_result-IsStored env out org q foreign).run db h,
  )
