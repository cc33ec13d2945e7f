-- ===== src/Audit.antt =====
-- apps/api/helpers.go: the audit log, a hash chain for each organisation, and the execution events.
-- The hash is a parameter (`hash_audit` of the environment). `occurred_at` stands for the text that
-- the code formats from the clock, which is ordered as the times are.
mod Sort
pub mod Chain
pub mod Write
pub mod Fork
use Prim.Native.Nat.{Ordering}
use Prim.Native.String.{compare}
use vpstools.Base.{
  ℕ, zero, suc, ◌+◌, String, Bool, true, false, not, ◌&&◌, ◌||◌, Option, none, some, List, [], ◌∷◌,
  ◌++◌, ◌==◌, ltb, eqb, null_if_empty, if◌then◌else◌,
}
use vpstools.Base.Assoc
use vpstools.Base.Table.{select, update}
use vpstools.Store.Status.{Status}
use vpstools.Store.Rows.{Db, AuditInput, AuditEvent, ExecutionEvent, Metadata}
use vpstools.Store.Action.{Result, ok, err, Action, Env, gets, modify, refuse_if, ◌>>=◌, ◌>>◌}

-- `occurred_at` first, then `id`: a comes before b.
unfoldable pub before : AuditEvent → AuditEvent → Bool
before a b =
    ltb a.input.occurred_at b.input.occurred_at
    || (eqb a.input.occurred_at b.input.occurred_at
        && (elim (compare a.input.id b.input.id) [ Ordering.lt ↦ true | _ ↦ false ]))

unfoldable pub insert : AuditEvent → List AuditEvent → List AuditEvent
insert e [] = e ∷ []
insert e (x ∷ xs) = let rest = x ∷ insert e xs in if before x e then rest else e ∷ x ∷ xs

-- ORDER BY occurred_at, id.
unfoldable pub order : List AuditEvent → List AuditEvent
unfolding insert
order [] = []
order (x ∷ xs) = insert x (order xs)

-- The events of an organisation in their order.
unfoldable pub events_of : String → List AuditEvent → List AuditEvent
unfolding order
events_of org l = order (select (λ e. e.input.organisation_id == org) l)

pub last_hash : String → List AuditEvent → String
last_hash h [] = h
last_hash h (e ∷ l) = last_hash e.event_hash l

-- `latestAuditHash`: the hash of the last event in the order, and the empty text if there is none.
unfoldable pub latest_audit_hash : String → List AuditEvent → String
unfolding last_hash events_of
latest_audit_hash org l = last_hash "" (events_of org l)

-- `writeAuditEventTypeTx`.
unfoldable pub write_audit_event_type :
    Env
    → String
    → String
    → String
    → String
    → String
    → String
    → String
    → Metadata
    → Action String (Unit {0})
unfolding ◌>>=◌
write_audit_event_type env org actor actor_type action target_type target result metadata = do
  refuse_if (env.fails "read audit") "read audit"
  previous ← gets (λ db. latest_audit_hash org db.audit)
  let input : AuditInput = record {
    id = env.fresh action;
    organisation_id = org;
    actor_user_id = actor;
    actor_type = actor_type;
    action = action;
    target_type = target_type;
    target_id = target;
    result = result;
    metadata = metadata;
    occurred_at = env.now;
    previous_hash = previous;
  }
  refuse_if (env.fails "write audit") "write audit"
  modify (λ db. record db {
    audit = db.audit ++ record { input = input; event_hash = env.hash_audit input } ∷ [];
  })

-- `writeAuditEventTx`, and `writeAuditEvent`, which logs the error and goes on.
unfoldable pub write_audit_event_tx :
    Env → String → String → String → String → String → String → Metadata → Action String (Unit {0})
unfolding write_audit_event_type
write_audit_event_tx env org actor action target_type target result metadata =
    write_audit_event_type env org actor "user" action target_type target result metadata

unfoldable pub write_audit_event :
    {E : Type 0}
    → Env
    → String
    → String
    → String
    → String
    → String
    → String
    → Metadata
    → Action E (Unit {0})
unfolding write_audit_event_tx
write_audit_event env org actor action target_type target result metadata db =
    (ok tt, (write_audit_event_tx env org actor action target_type target result metadata db).1)

-- `recordExecutionEvent`.
unfoldable pub record_execution_event :
    Env
    → String
    → String
    → String
    → Option Status
    → Status
    → String
    → Metadata
    → Action String (Unit {0})
unfolding ◌>>=◌
record_execution_event env org execution target from to event_type metadata = do
  refuse_if (env.fails event_type) event_type
  modify (λ db. record db {
    events =
        db.events
        ++ record {
          id = env.fresh event_type;
          organisation_id = org;
          execution_id = execution;
          target_id = null_if_empty target;
          from_status = from;
          to_status = to;
          event_type = event_type;
          metadata = metadata;
          occurred_at = env.now;
        }
          ∷ [];
  })

-- The loop of `verifyAuditHashChain`: the number of events checked, or where it fails.
unfoldable pub verify_rows : (AuditInput → String) → String → ℕ → List AuditEvent → Result String ℕ
verify_rows hash previous checked [] = ok checked
verify_rows hash previous checked (e ∷ l) =
    if not (e.input.previous_hash == previous)
      || (e.event_hash == "" || not (e.event_hash == hash e.input))
    then err e.input.id
    else verify_rows hash e.event_hash (suc checked) l

unfoldable pub verify_audit_hash_chain : (AuditInput → String) → String → Db → Result String ℕ
unfolding verify_rows
verify_audit_hash_chain hash org db = verify_rows hash "" 0 (events_of org db.audit)
