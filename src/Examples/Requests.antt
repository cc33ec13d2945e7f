-- ===== src/Examples/Requests.antt =====
-- Requests for executions at concrete inputs.
use Prim.Native.String.{◌++◌}
use vpstools.Base.{◌≡◌, ◌≢◌, refl, true, false, some, [], any, ◌==◌, if◌then◌else◌}
use vpstools.Base.Table.{find, select, exists}
use vpstools.Store.Action.{ok, ◌>>=◌}
use vpstools.Authz.Policy.{check_execution}
use vpstools.Authz.Policy.Rules.{MayExecute}
use vpstools.Authz.Risk.{classify_risk, contains, dangerous}
use vpstools.Audit.{record_execution_event, write_audit_event_tx, latest_audit_hash}
use vpstools.Runners.Reply.{raw, failure}
use vpstools.Executions.Targets.{resolve_targets, target_environment, snapshot_targets}
use vpstools.Executions.Create.{
  Request, Helpers, valid_idempotency_key, replay_idempotent_execution, create_tx, insert_targets,
  insert_key,
}
use vpstools.Executions.Create.Handle.{
  request_execution, unless_replayed, create_execution, create_or_replay, recover,
}
use vpstools.Executions.Create.Replay.{repeated_request}
use vpstools.Executions.Create.Allowed.{create_execution-MayExecute, named, where_it_runs}
use vpstools.Examples.World.{env, owner, db}

risks :
    (classify_risk (λ s. s) "sudo rm -rf /tmp/x" ≡ "critical")
    × (classify_risk (λ s. s) "systemctl restart nginx" ≡ "high")
    × (classify_risk (λ s. s) "curl localhost" ≡ "medium")
    × (classify_risk (λ s. s) "uptime" ≡ "low")
unfolding classify_risk contains
risks = (refl, refl, refl, refl)

removes : any (contains "rm -rf /") dangerous ≡ true
unfolding contains
removes = refl

owner_may :
    (check_execution owner "production" (classify_risk (λ s. s) "rm -rf /") "patch").allowed ≡ true
unfolding check_execution classify_risk contains
owner_may = refl

keys :
    (valid_idempotency_key "a-B_9.z" ≡ true)
    × (valid_idempotency_key "a b" ≡ false)
    × (valid_idempotency_key "" ≡ false)
unfolding valid_idempotency_key
keys = (refl, refl, refl)

abbrev helpers : Helpers
helpers = record {
  trim = λ s. s;
  lower_trim = λ s. s;
  redact = λ s. s;
  payload_hash = λ q. "p:" ++ q.command;
  body = λ execution risk n. execution;
}

abbrev asks : Request
asks = record { target = "server:web"; command = "uptime"; reason = ""; delegated_by_user_id = "" }

creates :
    (create_execution env helpers owner asks "" "p:uptime" db).0 ≡ ok (raw 201 "exe_new:execution")
unfolding create_execution create_or_replay recover create_tx insert_targets resolve_targets
    target_environment snapshot_targets check_execution classify_risk contains
    record_execution_event write_audit_event_tx latest_audit_hash find select exists ◌>>=◌
creates = refl

create_execution-MayExecute_example :
    (named env helpers owner asks "" "p:uptime" db ≢ [])
    × ((where_it_runs env helpers owner asks "" "p:uptime" db).1 ≡ false)
    × MayExecute owner
        (where_it_runs env helpers owner asks "" "p:uptime" db).0
        (classify_risk (λ s. s) "uptime")
        ""
create_execution-MayExecute_example =
    create_execution-MayExecute env helpers owner asks "" "p:uptime" db
      (raw 201 "exe_new:execution") creates

creates_with_key :
    (request_execution env helpers owner "k1" (some asks) db).0 ≡ ok (raw 201 "exe_new:execution")
unfolding request_execution unless_replayed replay_idempotent_execution valid_idempotency_key
    insert_key create_execution create_or_replay recover create_tx insert_targets resolve_targets
    target_environment snapshot_targets check_execution classify_risk contains
    record_execution_event write_audit_event_tx latest_audit_hash find select exists ◌>>=◌
creates_with_key = refl

repeated_request_example :
    request_execution env helpers owner "k1"
      (some asks)
      (request_execution env helpers owner "k1" (some asks) db).1
    ≡ (
      ok (
          if helpers.payload_hash asks == helpers.payload_hash asks
          then raw 201 "exe_new:execution"
          else failure 409 "idempotency key was already used with a different request payload"),
      (request_execution env helpers owner "k1" (some asks) db).1,
    )
repeated_request_example =
    repeated_request env helpers owner "k1" asks db "exe_new:execution" refl creates_with_key env
      asks refl refl
