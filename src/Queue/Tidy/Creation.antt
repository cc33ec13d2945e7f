-- ===== src/Queue/Tidy/Creation.antt =====
-- The invariant of the targets across the creation of an execution (apps/api/executions.go).
use vpstools.Base.{◌≡◌, refl, String, true, Option, none, some, List, [], ◌∷◌, ◌++◌, All-append}
use vpstools.Store.Rows.{Db}
use vpstools.Store.Action.{Action, Env, Result, ok, err, pure, raise, modify, transaction}
use vpstools.Store.Keeps.{Keeps, Keeps-modify, Keeps-bind, Keeps-transaction}
use vpstools.Authz.{Actor, Decision}
use vpstools.Runners.Denial.{write_denial}
use vpstools.Runners.Reply.{Reply, respond}
use vpstools.Executions.Create.{
  Request, Helpers, CreateError, refused, key_taken, new_target, insert_targets, insert_key,
  create_tx, replay_idempotent_execution,
}
use vpstools.Executions.Create.Handle.{
  answer_conflict, recover, create_or_replay, create_execution, unless_replayed, request_execution,
  handle_create_execution,
}
use vpstools.Queue.Tidy.{is_tidy, IsTidy, others_move, tidy_rules}

pub write_denial-IsTidy :
    (env : Env) (actor : Actor) (action target_type target : String) (d : Decision)
    → Keeps IsTidy (write_denial env actor action target_type target d)
unfolding write_denial
write_denial-IsTidy env actor action target_type target d = search tidy_rules

module _ (env : Env) (h : Helpers) (actor : Actor) where
  append-IsTidy :
      (org server : String)
      → Keeps {E = CreateError} IsTidy
          (modify (λ db. record db { targets = db.targets ++ new_target env org server ∷ [] }))
  append-IsTidy org server = Keeps-modify _ (λ db inv.
      All-append (λ t. is_tidy t ≡ true) db.targets (new_target env org server ∷ []) inv (refl, tt))

  pub insert_targets-IsTidy :
      (org : String) (ids : List String) → Keeps IsTidy (insert_targets env org ids)
  unfolding insert_targets
  insert_targets-IsTidy org [] = search tidy_rules
  insert_targets-IsTidy org (id ∷ ids) =
      Keeps-bind _ _ (search tidy_rules)
        (λ u. Keeps-bind _ _ (append-IsTidy org id) (λ v. insert_targets-IsTidy org ids))

  insert_key-IsTidy : (key hash body : String) → Keeps IsTidy (insert_key env actor key hash body)
  unfolding insert_key
  insert_key-IsTidy key hash body = search (tidy_rules, others_move)

  create_tx-IsTidy :
      (q : Request) (key hash : String) (ids : List String) (environment risk : String)
      → Keeps IsTidy (create_tx env h actor q key hash ids environment risk)
  unfolding create_tx
  create_tx-IsTidy q key hash ids environment risk =
      search (tidy_rules, others_move, insert_targets-IsTidy, insert_key-IsTidy) depth 20

  recover-IsTidy :
      (key hash : String) (r : Result CreateError Reply)
      → Keeps IsTidy (recover env actor key hash r)
  unfolding recover answer_conflict pure raise
  recover-IsTidy key hash (ok r) = record { run = λ db s. s }
  recover-IsTidy key hash (err (refused r)) = record { run = λ db s. s }
  recover-IsTidy key hash (err key_taken) = record {
    run = λ db s. (answered (replay_idempotent_execution env actor key hash db).0).run db s;
  }
    where
      answered : (r : Result Reply (Option Reply)) → Keeps IsTidy (answer_conflict r)
      answered (ok (some r)) = record { run = λ db s. s }
      answered (ok none) = record { run = λ db s. s }
      answered (err e) = record { run = λ db s. s }

  create_or_replay-IsTidy :
      (q : Request) (key hash : String) (ids : List String) (environment risk : String)
      → Keeps IsTidy (create_or_replay env h actor q key hash ids environment risk)
  unfolding create_or_replay
  create_or_replay-IsTidy q key hash ids environment risk = record {
    run = λ db s.
        (recover-IsTidy key hash
            (transaction (create_tx env h actor q key hash ids environment risk) db).0).run
          (transaction (create_tx env h actor q key hash ids environment risk) db).1
          ((Keeps-transaction _ (create_tx-IsTidy q key hash ids environment risk)).run db s);
  }

  replay-IsTidy :
      (key hash : String) → Keeps IsTidy (replay_idempotent_execution env actor key hash)
  unfolding replay_idempotent_execution
  replay-IsTidy key hash = search tidy_rules

  create_execution-IsTidy :
      (q : Request) (key hash : String) → Keeps IsTidy (create_execution env h actor q key hash)
  unfolding create_execution
  create_execution-IsTidy q key hash =
      search (tidy_rules, write_denial-IsTidy, create_or_replay-IsTidy) depth 20

  unless_replayed-IsTidy :
      (r : Option Reply) (m : Action Reply Reply)
      → Keeps IsTidy m
      → Keeps IsTidy (unless_replayed r m)
  unfolding unless_replayed
  unless_replayed-IsTidy none m km = km
  unless_replayed-IsTidy (some r) m km = search tidy_rules

  request_execution-IsTidy :
      (header : String) (body : Option Request)
      → Keeps IsTidy (request_execution env h actor header body)
  unfolding request_execution
  request_execution-IsTidy header body =
      search (tidy_rules, replay-IsTidy, unless_replayed-IsTidy, create_execution-IsTidy) depth 20

  pub handle_create_execution-IsTidy :
      (header : String) (body : Option Request) (db : Db)
      → IsTidy db
      → IsTidy (handle_create_execution env h actor header body db).1
  unfolding handle_create_execution respond
  handle_create_execution-IsTidy header body db s = (request_execution-IsTidy header body).run db s
