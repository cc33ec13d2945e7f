-- ===== src/Audit/Write.antt =====
-- A write to the audit log, and the chains of its organisation and of the others.
use vpstools.Base.{◌≡◌, String, List, arith}
use vpstools.Store.Rows.{Db, AuditInput, AuditEvent, Metadata}
use vpstools.Store.Action.{Result, ok, Env}
use vpstools.Audit.{
  latest_audit_hash, write_audit_event_type, write_audit_event_tx, write_audit_event,
}

module _ (env : Env) (org actor actor_type action target_type target result : String)
    (metadata : Metadata) (db : Db) where
  -- The contents that the write hashes and stores.
  abbrev pub written : AuditInput
  written = record {
    id = env.fresh action;
    organisation_id = org;
    actor_user_id = actor;
    actor_type = actor_type;
    action = action;
    target_type = target_type;
    target_id = target;
    result = result;
    metadata = metadata;
    occurred_at = env.now;
    previous_hash = latest_audit_hash org db.audit;
  }

  abbrev pub stored : AuditEvent
  stored = record { input = written; event_hash = env.hash_audit written }

  abbrev pub after_write : Result String (Unit {0}) × Db
  after_write =
      write_audit_event_type env org actor actor_type action target_type target result metadata db

-- An audit write changes no other table, whether it succeeds or not, and its error is dropped.
pub write_audit_event-audit :
    {E : Type 0} (env : Env) (org actor action target_type target result : String)
    (metadata : Metadata) (db : Db)
    → (l : List AuditEvent) × (write_audit_event {E = E} env org actor action target_type target
          result metadata db
        ≡ (ok tt, record db { audit = l }))
unfolding write_audit_event
write_audit_event-audit env org actor action target_type target result metadata db = (
  (write_audit_event_tx env org actor action target_type target result metadata db).1.audit,
  ground arith,
)
