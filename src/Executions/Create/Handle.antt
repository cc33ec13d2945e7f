-- ===== src/Executions/Create/Handle.antt =====
-- handleCreateExecution (apps/api/executions.go).
use Prim.Native.String.{◌++◌}
use vpstools.Base.{
  String, Bool, true, false, not, ◌&&◌, ◌||◌, Option, none, some, List, [], ◌∷◌, ◌==◌,
  if◌then◌else◌,
}
use vpstools.Store.Rows.{Db}
use vpstools.Store.Action.{
  Action, Env, Result, ok, err, pure, raise, gets, or_raise, refuse_if, when, transaction, ◌>>=◌,
  ◌>>◌,
}
use vpstools.Authz.{Actor}
use vpstools.Authz.Policy.{check_execution}
use vpstools.Authz.Risk.{classify_risk}
use vpstools.Runners.Denial.{write_denial}
use vpstools.Runners.Reply.{Reply, failure, respond}
use vpstools.Executions.Targets.{resolve_targets, target_environment, snapshot_targets}
use vpstools.Executions.Create.{
  Request, Helpers, CreateError, refused, key_taken, valid_idempotency_key,
  replay_idempotent_execution, create_tx,
}

abbrev pub key_in_use : Reply
key_in_use = failure 409 "idempotency key is already in use"

-- After a conflict of keys the other request's answer is looked up.
unfoldable pub answer_conflict : Result Reply (Option Reply) → Action Reply Reply
answer_conflict (ok (some r)) = pure r
answer_conflict (ok none) = raise key_in_use
answer_conflict (err e) = raise key_in_use

unfoldable pub recover :
    Env → Actor → String → String → Result CreateError Reply → Action Reply Reply
recover env actor key hash (ok r) db = pure r db
recover env actor key hash (err (refused r)) db = raise r db
recover env actor key hash (err key_taken) db =
    answer_conflict (replay_idempotent_execution env actor key hash db).0 db

unfoldable pub create_or_replay :
    Env
    → Helpers
    → Actor
    → Request
    → String
    → String
    → List String
    → String
    → String
    → Action Reply Reply
create_or_replay env h actor q key hash ids environment risk db =
    let (r, db') = transaction (create_tx env h actor q key hash ids environment risk) db in
    recover env actor key hash r db'

abbrev pub is_nil : List String → Bool
is_nil [] = true
is_nil (x ∷ xs) = false

-- The checks before the transaction, for a request that is no repetition.
unfoldable pub create_execution :
    Env → Helpers → Actor → Request → String → String → Action Reply Reply
create_execution env h actor q key hash = do
  ids ← gets (resolve_targets env actor.organisation_id q.target)
  refuse_if (is_nil ids) (failure 400 ("no servers found for target: " ++ q.target))
  environment ← gets (target_environment env actor.organisation_id ids)
  refuse_if environment.1
      (failure 400 "targets span multiple environments; submit one environment at a time")
  let risk = classify_risk h.lower_trim q.command
  let decision = check_execution actor environment.0 risk q.reason
  when (not decision.allowed)
      (write_denial env actor "execution.requested" "execution" q.target decision)
  snapshots ← gets (snapshot_targets env actor.organisation_id ids)
  refuse_if (not snapshots) (failure 500 "failed to snapshot selected targets")
  refuse_if (env.fails "failed to start execution transaction")
      (failure 500 "failed to start execution transaction")
  create_or_replay env h actor q key hash ids environment.0 risk

unfoldable pub unless_replayed : Option Reply → Action Reply Reply → Action Reply Reply
unless_replayed (some r) m = pure r
unless_replayed none m = m

unfoldable pub request_execution :
    Env → Helpers → Actor → String → Option Request → Action Reply Reply
request_execution env h actor header body = do
  q ← or_raise body (failure 400 "invalid request body")
  refuse_if (q.target == "" || q.command == "") (failure 400 "target and command are required")
  let key = h.trim header
  refuse_if (not (key == "") && not (valid_idempotency_key key)) (
      failure 400
        "Idempotency-Key must contain only letters, numbers, '.', '_' or '-' and be at most 128 characters")
  replayed ←
      if key == "" then pure none else replay_idempotent_execution env actor key (h.payload_hash q)
  unless_replayed replayed (create_execution env h actor q key (h.payload_hash q))

unfoldable pub handle_create_execution :
    Env → Helpers → Actor → String → Option Request → Db → Reply × Db
handle_create_execution env h actor header body =
    respond (request_execution env h actor header body)
