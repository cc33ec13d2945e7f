-- ===== src/Catalogue/Immutable.antt =====
-- The versions of runbooks across the handlers of the catalogue (apps/api/runbooks.go).
use vpstools.Base.{
  ◌≡◌, refl, sym, ◌∙◌, ap, ap₂, String, Bool, Option, none, List, [], ◌∷◌, ◌++◌, map, append_assoc,
  append-nil, Bool-cases, inl, inr,
}
use mathlib.Core.List.{map-append}
use vpstools.Base.Table.{update}
use vpstools.Store.Catalogue.{RunbookVersion, draft}
use vpstools.Store.Rows.{Db, Metadata}
use vpstools.Store.Action.{Env, modify}
use vpstools.Store.Keeps.{Keeps, Keeps-modify, keeps_rules}
use vpstools.Authz.{Actor, Decision}
use vpstools.Audit.{write_audit_event_type, write_audit_event_tx, write_audit_event}
use vpstools.Runbooks.Types.{Runbook, Checked, accepted, rejected}
use vpstools.Runners.Denial.{write_denial}
use vpstools.Runners.Reply.{respond}
use vpstools.Catalogue.Drafts.{RunbookRequest, Reader}
use vpstools.Catalogue.Handle.{
  or_bad_request, create_runbook_tx, create_runbook, handle_create_runbook, update_runbook_tx,
  update_runbook, handle_update_runbook, publish_runbook, handle_publish_runbook, archive_runbook,
  handle_archive_runbook, insert_version,
}

-- A version without the marks of its publication.
abbrev pub content : RunbookVersion → RunbookVersion
content v = record v { status = draft; published_by_user_id = none; published_at = none }

-- The versions are the old ones, in their order and with their contents, and later ones after them.
abbrev pub Extends : List RunbookVersion → List RunbookVersion → Type 0
Extends old new = (later : List RunbookVersion) × (map content new ≡ map content old ++ later)

content-update :
    (p : RunbookVersion → Bool) (f : RunbookVersion → RunbookVersion) (l : List RunbookVersion)
    → ((v : RunbookVersion) → content (f v) ≡ content v)
    → map content (update p f l) ≡ map content l
unfolding update
content-update p f [] h = refl
content-update p f (v ∷ l) h = elim (Bool-cases (p v)) [
  | inl hit ↦ rw hit (ap₂ ◌∷◌ (h v) (content-update p f l h))
  | inr miss ↦ rw miss (ap (◌∷◌ (content v)) (content-update p f l h))
]

module _ (old : List RunbookVersion) where
  abbrev Kept : Db → Type 0
  Kept db = Extends old db.runbook_versions

  elsewhere :
      {E : Type 0} (f : Db → Db)
      → ((db : Db) → (f db).runbook_versions ≡ db.runbook_versions)
      → Keeps {E = E} Kept (modify f)
  elsewhere f same = Keeps-modify f (λ db (later, h). (later, ap (map content) (same db) ∙ h))

  marked :
      {E : Type 0} (p : RunbookVersion → Bool) (f : RunbookVersion → RunbookVersion)
      → ((v : RunbookVersion) → content (f v) ≡ content v)
      → Keeps {E = E} Kept
          (modify (λ db. record db { runbook_versions = update p f db.runbook_versions }))
  marked p f same =
      Keeps-modify _ (λ db (later, h). (later, content-update p f db.runbook_versions same ∙ h))

  added :
      {E : Type 0} (v : RunbookVersion)
      → Keeps {E = E} Kept
          (modify (λ db. record db { runbook_versions = db.runbook_versions ++ v ∷ [] }))
  added v = Keeps-modify _ (λ db (later, h). (
    later ++ content v ∷ [],
    map-append content db.runbook_versions (v ∷ [])
        ∙ ap (λ l. l ++ content v ∷ []) h
        ∙ append_assoc (map content old) later (content v ∷ []),
  ))

  audit_tx_kept :
      (env : Env) (org actor action target_type target result : String) (metadata : Metadata)
      → Keeps Kept (write_audit_event_tx env org actor action target_type target result metadata)
  unfolding write_audit_event_tx write_audit_event_type
  audit_tx_kept env org actor action target_type target result metadata =
      search (keeps_rules, elsewhere)

  audit_kept :
      {E : Type 0} (env : Env) (org actor action target_type target result : String)
      (metadata : Metadata)
      → Keeps {E = E} Kept
          (write_audit_event env org actor action target_type target result metadata)
  unfolding write_audit_event
  audit_kept env org actor action target_type target result metadata = record {
    run = (audit_tx_kept env org actor action target_type target result metadata).run;
  }

  denial_kept :
      (env : Env) (actor : Actor) (action target_type target : String) (d : Decision)
      → Keeps Kept (write_denial env actor action target_type target d)
  unfolding write_denial
  denial_kept env actor action target_type target d = search (keeps_rules, audit_kept)

  bad_request_kept : (c : Checked String Runbook) → Keeps Kept (or_bad_request c)
  unfolding or_bad_request
  bad_request_kept (accepted rb) = search keeps_rules
  bad_request_kept (rejected e) = search keeps_rules

  create_kept :
      (env : Env) (reader : Reader) (actor : Actor) (body : Option RunbookRequest)
      → Keeps Kept (create_runbook env reader actor body)
  unfolding create_runbook create_runbook_tx insert_version
  create_kept env reader actor body =
      search (keeps_rules, elsewhere, added, audit_kept, denial_kept, bad_request_kept) depth 40

  update_kept :
      (env : Env) (reader : Reader) (actor : Actor) (name : String) (body : Option RunbookRequest)
      → Keeps Kept (update_runbook env reader actor name body)
  unfolding update_runbook update_runbook_tx insert_version
  update_kept env reader actor name body =
      search (keeps_rules, elsewhere, added, audit_kept, denial_kept, bad_request_kept) depth 40

  publish_kept :
      (env : Env) (actor : Actor) (name : String) → Keeps Kept (publish_runbook env actor name)
  unfolding publish_runbook
  publish_kept env actor name =
      search (keeps_rules, elsewhere, marked, audit_kept, denial_kept) depth 40

  archive_kept :
      (env : Env) (actor : Actor) (name : String) → Keeps Kept (archive_runbook env actor name)
  unfolding archive_runbook
  archive_kept env actor name = search (keeps_rules, elsewhere, audit_kept, denial_kept) depth 40

-- The handlers of the catalogue, and whatever other handlers do to the other tables.
pub data Step (db : Db) : Db → Type 0 where
  create :
      (env : Env) (reader : Reader) (actor : Actor) (body : Option RunbookRequest)
      → Step db (handle_create_runbook env reader actor body db).1
  update_to :
      (env : Env) (reader : Reader) (actor : Actor) (name : String) (body : Option RunbookRequest)
      → Step db (handle_update_runbook env reader actor name body db).1
  publish :
      (env : Env) (actor : Actor) (name : String)
      → Step db (handle_publish_runbook env actor name db).1
  archive :
      (env : Env) (actor : Actor) (name : String)
      → Step db (handle_archive_runbook env actor name db).1
  other : (after : Db) → after.runbook_versions ≡ db.runbook_versions → Step db after

pub data Reaches (start : Db) : Db → Type 0 where
  here : Reaches start start
  next : {db after : Db} → Reaches start db → Step db after → Reaches start after

Step-Extends :
    (old : List RunbookVersion) {db after : Db}
    → Step db after
    → Extends old db.runbook_versions
    → Extends old after.runbook_versions
unfolding handle_create_runbook handle_update_runbook handle_publish_runbook handle_archive_runbook
    respond
Step-Extends old {db} (create env reader actor body) h =
    (create_kept old env reader actor body).run db h
Step-Extends old {db} (update_to env reader actor name body) h =
    (update_kept old env reader actor name body).run db h
Step-Extends old {db} (publish env actor name) h = (publish_kept old env actor name).run db h
Step-Extends old {db} (archive env actor name) h = (archive_kept old env actor name).run db h
Step-Extends old (other after same) h = (h.0, ap (map content) same ∙ h.1)

-- However runbooks are created, updated, published and archived, with any statements failing, no version
-- changes but in the marks of its publication, none is removed, and new ones only come after them: the
-- definition, the command, the risk and the roles of a version that was stored stay what they were.
pub Reaches-Extends :
    {start db : Db} → Reaches start db → Extends start.runbook_versions db.runbook_versions
Reaches-Extends {start} here = ([], sym (append-nil (map content start.runbook_versions)))
Reaches-Extends {start} (next r s) = Step-Extends start.runbook_versions s (Reaches-Extends r)
