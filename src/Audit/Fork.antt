-- ===== src/Audit/Fork.antt =====
-- Two writes that read the same last hash: what an interleaving of two handlers leads to.
use vpstools.Base.{String, [], ◌∷◌, ◌++◌}
use vpstools.Store.Rows.{Db, AuditEvent, Metadata}
use vpstools.Store.Action.{Env}
use vpstools.Audit.Write.{stored}

-- A request to write one audit event.
pub record Entry : Type 0 where
  pub actor : String
  pub actor_type : String
  pub action : String
  pub target_type : String
  pub target : String
  pub result : String
  pub metadata : Metadata

abbrev event_from : Env → String → Entry → Db → AuditEvent
event_from env org e db =
    stored env org e.actor e.actor_type e.action e.target_type e.target e.result e.metadata db

-- `writeAuditEventTypeTx` is a read of the last hash and an insert. Here a second handler reads
-- before the first one inserts.
abbrev pub interleaved : Env → Env → String → Entry → Entry → Db → Db
interleaved first second org d e db = record db {
  audit = (db.audit ++ event_from first org d db ∷ []) ++ event_from second org e db ∷ [];
}
