-- ===== src/Examples/Log.antt =====
-- The audit chain at concrete inputs.
use vpstools.Base.{◌≡◌, ◌↔◌, String, [], ◌==◌, length, if◌then◌else◌}
use vpstools.Store.Action.{ok, Env}
use vpstools.Audit.{verify_audit_hash_chain, events_of}
use vpstools.Audit.Chain.{IsChain, verify_audit_hash_chain_iff}
use vpstools.Audit.Fork.{Entry}
use vpstools.Examples.World.{env, db, hash_audit}

abbrev entry : Entry
entry = record {
  actor = "user_1";
  actor_type = "user";
  action = "login";
  target_type = "user";
  target = "user_1";
  result = "success";
  metadata = [];
}

verify_audit_hash_chain_iff_example : (verify_audit_hash_chain hash_audit "org_1" db ≡ ok 0) ↔ (
    IsChain hash_audit "" (events_of "org_1" db.audit) × (length (events_of "org_1" db.audit) ≡ 0))
verify_audit_hash_chain_iff_example = verify_audit_hash_chain_iff hash_audit "org_1" 0 db

abbrev flat : Env
flat = record env { hash_audit = λ i. "h" }

-- A hash that is never the one before it.
toggle : String → String
toggle previous = if previous == "" then "a" else ""

abbrev first : Env
first = record env { hash_audit = λ i. toggle i.previous_hash }

abbrev second : Env
second = record first { now = 1001 }
