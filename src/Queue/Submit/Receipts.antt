-- ===== src/Queue/Submit/Receipts.antt =====
-- Receipts of accepted results, and results that are sent again (apps/api/jobs.go).
use vpstools.Base.{
  ◌≡◌, ◌≢◌, refl, String, Bool, true, false, Option, none, some, List, [], ◌∷◌, ◌++◌, arith,
  eq_refl, eq_iff, inl, inr, Bool-cases,
}
use vpstools.Base.Table.{find}
use vpstools.Store.Status.{Status}
use vpstools.Store.Rows.{Db, Target, Receipt, Metadata}
use vpstools.Store.Action.{ok, Env, pure, refuse_if, modify, ◌>>=◌, ◌>>◌}
use vpstools.Store.Keeps.{Keeps, Keeps-modify, keeps_rules}
use vpstools.Store.Ends.{Ends, ends_rules}
use vpstools.Audit.{write_audit_event_type, write_audit_event_tx, record_execution_event}
use vpstools.Runners.Reply.{Reply, failure, status, code}
use vpstools.Queue.Submit.{
  Submission, Outside, redacted, is_receipt, receipt_of, store_artifact, persist_in,
  persist_execution_artifacts, insert_result_receipt, schedule_retry,
}
use vpstools.Queue.Submit.Handle.{
  store_result, finalize_execution, complete, mark_dead_letter, apply_result, replay, on_receipt,
  result_tx, submit_result,
}

abbrev pub Always : Db → Type 0
Always db = Unit {0}

module _ (env : Env) (out : Outside) (org : String) (q : Submission) (hash : String) where
  -- No receipt for the lease yet.
  abbrev Fresh : Db → Type 0
  Fresh db = find (is_receipt q) db.receipts ≡ none

  -- The receipt of the reply.
  abbrev pub Recorded : Reply → Db → Type 0
  Recorded reply db =
      (r : Receipt) × (find (is_receipt q) db.receipts ≡ some r)
      × (r.payload_hash ≡ hash)
      × (r.response_code ≡ code reply)

  stays :
      {E : Type 0} (f : Db → Db)
      → ((db : Db) → (f db).receipts ≡ db.receipts)
      → Keeps {E = E} Fresh (modify f)
  stays f h = Keeps-modify f (λ db fresh. rw (h db) fresh)

  record_execution_event-Fresh :
      (execution target : String) (from : Option Status) (to : Status) (event : String)
      (metadata : Metadata)
      → Keeps Fresh (record_execution_event env org execution target from to event metadata)
  unfolding record_execution_event
  record_execution_event-Fresh execution target from to event metadata = search (keeps_rules, stays)

  write_audit_event_tx-Fresh :
      (actor action target_type target result : String) (metadata : Metadata)
      → Keeps Fresh (write_audit_event_tx env org actor action target_type target result metadata)
  unfolding write_audit_event_tx write_audit_event_type
  write_audit_event_tx-Fresh actor action target_type target result metadata =
      search (keeps_rules, stays)

  store_artifact-Fresh :
      (put : String → String → Bool) (kind value : String)
      → Keeps Fresh (store_artifact env out put org q kind value)
  unfolding store_artifact
  store_artifact-Fresh put kind value = search (keeps_rules, stays) depth 20

  persist_in-Fresh :
      (put : Option (String → String → Bool)) → Keeps Fresh (persist_in env out org q put)
  unfolding persist_in
  persist_in-Fresh none = search keeps_rules
  persist_in-Fresh (some put) = search (keeps_rules, store_artifact-Fresh)

  persist-Fresh : Keeps Fresh (persist_execution_artifacts env out org q)
  unfolding persist_execution_artifacts
  persist-Fresh = persist_in-Fresh out.put

  finalize_execution-Fresh : (to : Status) → Keeps Fresh (finalize_execution env org q to)
  unfolding finalize_execution
  finalize_execution-Fresh to = search (keeps_rules, stays) depth 20

  mark_dead_letter-Fresh : Keeps Fresh (mark_dead_letter env q)
  unfolding mark_dead_letter
  mark_dead_letter-Fresh = search (keeps_rules, stays)

  find-last :
      (l : List Receipt) (r : Receipt)
      → find (is_receipt q) l ≡ none
      → is_receipt q r ≡ true
      → find (is_receipt q) (l ++ r ∷ []) ≡ some r
  unfolding find
  find-last [] r h e = rw e
  find-last (x ∷ l) r h e = ground (arith, find-last l r)

  -- The last three steps of both branches.
  receipted :
      (body word : String)
      → Ends Fresh
          (insert_result_receipt env org q hash body
            >> (refuse_if
                  (env.fails "failed to commit result")
                  (failure 500 "failed to commit result")
                >> pure (status 200 word)))
          Recorded
  unfolding insert_result_receipt ◌>>=◌
  receipted body word = record {
    run = λ db fresh reply e.
        let found =
          find-last db.receipts (receipt_of org q hash body) fresh
            (rw (eq_refl q.target_id, eq_refl q.lease_id) refl) in
        (receipt_of org q hash body, ground arith, refl, ground arith);
  }

  schedule_retry-Recorded : (t : Target) → Ends Fresh (schedule_retry env org q hash t) Recorded
  unfolding schedule_retry
  schedule_retry-Recorded t =
      search
        (
          keeps_rules, ends_rules, stays, record_execution_event-Fresh, write_audit_event_tx-Fresh,
          receipted,
        )
        depth 20

  complete-Recorded :
      (t : Target) (to : Status) → Ends Fresh (complete env org q hash t to) Recorded
  unfolding complete
  complete-Recorded t to =
      search
        (
          keeps_rules, ends_rules, finalize_execution-Fresh, record_execution_event-Fresh,
          write_audit_event_tx-Fresh, receipted,
        )
        depth 30

  apply_result-Recorded : Ends Fresh (apply_result env out org q hash) Recorded
  unfolding apply_result store_result
  apply_result-Recorded =
      search
        (
          keeps_rules, ends_rules, stays, persist-Fresh, mark_dead_letter-Fresh,
          schedule_retry-Recorded, complete-Recorded,
        )
        depth 20

  on_receipt-Recorded :
      (o : Option Receipt) (db : Db)
      → find (is_receipt q) db.receipts ≡ o
      → (reply : Reply) → (on_receipt env out org q hash o db).0 ≡ ok reply
      → Recorded reply (on_receipt env out org q hash o db).1
  unfolding on_receipt replay ◌>>=◌
  on_receipt-Recorded none db f reply e = apply_result-Recorded.run db f reply e
  on_receipt-Recorded (some r) db f reply e =
      (r, ground arith, ground (arith, eq_iff r.payload_hash hash), ground arith)

  looked_up :
      (db : Db)
      → env.fails "failed to inspect result receipt" ≡ false
      → result_tx env out org q hash db
        ≡ on_receipt env out org q hash (find (is_receipt q) db.receipts) db
  unfolding result_tx ◌>>=◌
  looked_up db up = rw (up, refuse_if) refl

  not_looked_up :
      (db : Db) (reply : Reply)
      → env.fails "failed to inspect result receipt" ≡ true
      → (result_tx env out org q hash db).0 ≢ ok reply
  unfolding result_tx ◌>>=◌
  not_looked_up db reply down e = ground arith

  result_tx-Recorded : Ends Always (result_tx env out org q hash) Recorded
  result_tx-Recorded = record {
    run = λ db u reply e. elim (Bool-cases (env.fails "failed to inspect result receipt")) [
      | inl down ↦ absurd (not_looked_up db reply down e)
      | inr up ↦
          rw (looked_up db up) (on_receipt-Recorded _ db refl reply (rw (looked_up db up) at e))
    ];
  }

pub submit_result-Recorded :
    (env : Env) (out : Outside) (org : String) (q : Submission)
    → Ends Always
        (submit_result env out org q)
        (Recorded env out org (redacted out q) (out.payload_hash (redacted out q)))
unfolding submit_result
submit_result-Recorded env out org q = search (
  keeps_rules,
  ends_rules,
  result_tx-Recorded env out org (redacted out q) (out.payload_hash (redacted out q)),
)
