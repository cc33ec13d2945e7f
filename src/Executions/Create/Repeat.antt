-- ===== src/Executions/Create/Repeat.antt =====
-- Requests that repeat an idempotency key (apps/api/executions.go).
use vpstools.Base.{
  ◌≡◌, refl, ◌∙◌, String, true, false, not, Option, none, some, List, [], ◌∷◌, ◌++◌, arith, ◌==◌,
  eq_refl,
}
use vpstools.Base.Table.{find}
use vpstools.Store.Status.{Status}
use vpstools.Store.Rows.{Db, IdempotencyKey, Metadata}
use vpstools.Store.Action.{
  Result, ok, err, Env, pure, refuse_if, modify, when, transaction, ◌>>=◌, ◌>>◌,
}
use vpstools.Store.Keeps.{Keeps, Keeps-modify, Keeps-bind, keeps_rules}
use vpstools.Store.Ends.{Ends, Ends-transaction, ends_rules}
use vpstools.Store.Fails.{Fails-transaction}
use vpstools.Authz.{Actor, Decision}
use vpstools.Runners.Denial.{write_denial}
use vpstools.Audit.{
  write_audit_event_type, write_audit_event_tx, write_audit_event, record_execution_event,
}
use vpstools.Runners.Reply.{Reply, failure, raw}
use vpstools.Executions.Create.{
  Request, Helpers, CreateError, refused, key_taken, is_key, execution_id, insert_targets,
  insert_key, create_tx, replay_idempotent_execution,
}
use vpstools.Executions.Create.Handle.{answer_conflict, recover, create_or_replay, create_execution}

module _ (env : Env) (actor : Actor) (key hash : String) where
  -- The actor has not used the key.
  abbrev pub Unused : Db → Type 0
  Unused db = find (is_key actor key) db.keys ≡ none

  -- The key stands for a reply.
  abbrev pub Remembers : Reply → Db → Type 0
  Remembers reply db =
      (k : IdempotencyKey) × (find (is_key actor key) db.keys ≡ some k)
      × (k.payload_hash ≡ hash)
      × (reply ≡ raw 201 k.response_body)

  stays :
      {E : Type 0} (f : Db → Db)
      → ((db : Db) → (f db).keys ≡ db.keys)
      → Keeps {E = E} Unused (modify f)
  stays f h = Keeps-modify f (λ db unused. rw (h db) unused)

  record_execution_event-Unused :
      (org execution target : String) (from : Option Status) (to : Status) (event : String)
      (metadata : Metadata)
      → Keeps Unused (record_execution_event env org execution target from to event metadata)
  unfolding record_execution_event
  record_execution_event-Unused org execution target from to event metadata =
      search (keeps_rules, stays)

  write_audit_event_tx-Unused :
      (org user action target_type target result : String) (metadata : Metadata)
      → Keeps Unused (write_audit_event_tx env org user action target_type target result metadata)
  unfolding write_audit_event_tx write_audit_event_type
  write_audit_event_tx-Unused org user action target_type target result metadata =
      search (keeps_rules, stays)

  insert_targets-Unused :
      (org : String) (ids : List String) → Keeps Unused (insert_targets env org ids)
  unfolding insert_targets
  insert_targets-Unused org [] = search keeps_rules
  insert_targets-Unused org (id ∷ ids) =
      Keeps-bind _ _ (search keeps_rules)
        (λ u. Keeps-bind _ _ (stays _ (λ db. refl)) (λ v. insert_targets-Unused org ids))

  find-last :
      (l : List IdempotencyKey) (k : IdempotencyKey)
      → find (is_key actor key) l ≡ none
      → is_key actor key k ≡ true
      → find (is_key actor key) (l ++ k ∷ []) ≡ some k
  unfolding find
  find-last [] k h e = rw e refl
  find-last (x ∷ l) k h e = ground (arith, find-last l k)

  abbrev stored : String → IdempotencyKey
  stored body = record {
    organisation_id = actor.organisation_id;
    user_id = actor.user_id;
    idempotency_key = key;
    payload_hash = hash;
    execution_id = execution_id env;
    response_body = body;
  }

  -- The last steps of the transaction.
  remembered :
      (body : String)
      → (key == "") ≡ false
      → Ends Unused
          (when (not (key == "")) (insert_key env actor key hash body)
            >> (refuse_if
                  (env.fails "failed to commit execution")
                  (refused (failure 500 "failed to commit execution"))
                >> pure (raw 201 body)))
          Remembers
  unfolding insert_key ◌>>=◌
  remembered body given = record {
    run = λ db unused reply e.
        let found =
          find-last db.keys (stored body) unused
            (rw (eq_refl actor.organisation_id, eq_refl actor.user_id, eq_refl key) refl) in
        (stored body, ground arith, refl, ground arith);
  }

  create_tx-Remembers :
      (h : Helpers) (q : Request) (ids : List String) (environment risk : String)
      → (key == "") ≡ false
      → Ends Unused (create_tx env h actor q key hash ids environment risk) Remembers
  unfolding create_tx
  create_tx-Remembers h q ids environment risk given =
      search
        (
          keeps_rules, ends_rules, stays, insert_targets-Unused, record_execution_event-Unused,
          write_audit_event_tx-Unused, remembered,
        )
        depth 20

  recovered :
      (r : Result CreateError Reply) (after : Db) (reply : Reply)
      → ((a : Reply) → r ≡ ok a → Remembers a after)
      → ((e : CreateError) → r ≡ err e → Unused after)
      → (recover env actor key hash r after).0 ≡ ok reply
      → Remembers reply (recover env actor key hash r after).1
  unfolding recover answer_conflict replay_idempotent_execution ◌>>=◌
  recovered (ok a) after reply done rolled e =
      let m = done a refl in let same : reply ≡ a = ground (arith, e) in (m.0, m.1, m.2, same ∙ m.3)
  recovered (err (refused x)) after reply done rolled e = ground (arith, e)
  recovered (err key_taken) after reply done rolled e = ground (arith, e, rolled key_taken refl)

  create_or_replay-Remembers :
      (h : Helpers) (q : Request) (ids : List String) (environment risk : String)
      → (key == "") ≡ false
      → Ends Unused (create_or_replay env h actor q key hash ids environment risk) Remembers
  unfolding create_or_replay
  create_or_replay-Remembers h q ids environment risk given = record {
    run = λ db unused reply e.
        let m = create_tx env h actor q key hash ids environment risk in
        recovered (transaction m db).0 (transaction m db).1 reply
          ((Ends-transaction m (create_tx-Remembers h q ids environment risk given)).run db unused)
          ((Fails-transaction {P = Unused} m).run db unused) e;
  }

  write_audit_event-Unused :
      (org user action target_type target result : String) (metadata : Metadata)
      → Keeps {E = Reply} Unused
          (write_audit_event env org user action target_type target result metadata)
  unfolding write_audit_event
  write_audit_event-Unused org user action target_type target result metadata = record {
    run = (write_audit_event_tx-Unused org user action target_type target result metadata).run;
  }

  write_denial-Unused :
      (action target_type target : String) (d : Decision)
      → Keeps Unused (write_denial env actor action target_type target d)
  unfolding write_denial
  write_denial-Unused action target_type target d = search (keeps_rules, write_audit_event-Unused)

  pub create_execution-Remembers :
      (h : Helpers) (q : Request)
      → (key == "") ≡ false
      → Ends Unused (create_execution env h actor q key hash) Remembers
  unfolding create_execution
  create_execution-Remembers h q given =
      search (keeps_rules, ends_rules, write_denial-Unused, create_or_replay-Remembers) depth 20
