-- ===== src/Catalogue/Handle.antt =====
-- handleCreateRunbook, handleUpdateRunbook, handlePublishRunbook and handleArchiveRunbook
-- (apps/api/runbooks.go).
use vpstools.Base.{String, Bool, not, ◌&&◌, ◌||◌, Option, none, some, [], ◌∷◌, ◌++◌, ◌==◌, eqb}
use vpstools.Base.Int.{ℤ, pos, eqb_ℤ}
use vpstools.Base.Table.{find, update, count, exists}
use vpstools.Store.Catalogue.{RunbookRow, RunbookVersion, draft, published, archived, is_archived}
use vpstools.Store.Rows.{Db, number, text}
use vpstools.Store.Action.{
  Action, Env, pure, raise, gets, or_raise, modify, refuse_if, when, transaction, ◌>>=◌, ◌>>◌,
}
use vpstools.Authz.{Actor, deny, is_senior}
use vpstools.Audit.{write_audit_event}
use vpstools.Runbooks.Types.{Runbook, Checked, accepted, rejected}
use vpstools.Runners.Denial.{write_denial}
use vpstools.Runners.Reply.{Reply, failure, status, runbook_created, drafted, respond}
use vpstools.Approvals.Request.{is_runbook, is_version, with_version}
use vpstools.Catalogue.Drafts.{
  RunbookRequest, Reader, drafted_runbook, revised_runbook, valid_allowed_roles, or_default,
  runbook_id_of, version_id_of, new_row, new_version,
}

unfoldable pub or_bad_request : Checked String Runbook → Action Reply Runbook
or_bad_request (accepted rb) = pure rb
or_bad_request (rejected e) = raise (failure 400 e)

-- UNIQUE(organisation_id, name)
abbrev takes_name : Actor → Runbook → RunbookRow → Bool
takes_name actor rb r = r.organisation_id == actor.organisation_id && r.name == rb.metadata.name

-- The primary key and UNIQUE(runbook_id, version).
abbrev takes_number : String → String → Runbook → RunbookVersion → Bool
takes_number id runbook rb v =
    v.id == id || (v.runbook_id == runbook && eqb_ℤ v.version rb.metadata.version)

unfoldable pub insert_version : Env → Actor → String → String → Runbook → Action Reply (Unit {0})
insert_version env actor runbook roles rb = do
  taken ← gets (λ db. exists (takes_number (version_id_of env) runbook rb) db.runbook_versions)
  refuse_if (env.fails "failed to create runbook version" || taken)
      (failure 500 "failed to create runbook version")
  modify (λ db. record db {
    runbook_versions = db.runbook_versions ++ new_version env actor runbook roles rb ∷ [];
  })

unfoldable pub create_runbook_tx : Env → Actor → String → Runbook → Action Reply (Unit {0})
unfolding insert_version
create_runbook_tx env actor roles rb = do
  taken ← gets (λ db. exists (takes_name actor rb) db.runbooks)
  refuse_if (env.fails "insert runbook" || taken)
      (failure 409 "runbook name already exists or could not be created")
  modify (λ db. record db { runbooks = db.runbooks ++ new_row env actor rb ∷ [] })
  insert_version env actor (runbook_id_of env) roles rb
  refuse_if (env.fails "failed to activate runbook version")
      (failure 500 "failed to activate runbook version")
  modify (λ db. record db {
    runbooks =
        update (λ r. r.id == runbook_id_of env)
          (λ r. record r { current_version_id = some (version_id_of env) }) db.runbooks;
  })
  refuse_if (env.fails "failed to commit runbook") (failure 500 "failed to commit runbook")

unfoldable pub create_runbook : Env → Reader → Actor → Option RunbookRequest → Action Reply Reply
unfolding or_bad_request
create_runbook env reader actor body = do
  when (not (is_senior actor)) (
      write_denial env actor "runbook.created" "runbook" ""
        (deny "runbook_requires_senior" "Creating runbooks requires senior engineer or above."))
  q ← or_raise body (failure 400 "invalid request body")
  rb ← or_bad_request (drafted_runbook reader q)
  refuse_if (not (q.allowed_roles == "") && not (valid_allowed_roles reader q.allowed_roles))
      (failure 400 "allowed_roles must be a JSON array of known roles")
  refuse_if (env.fails "failed to start runbook transaction")
      (failure 500 "failed to start runbook transaction")
  transaction (create_runbook_tx env actor q.allowed_roles rb)
  write_audit_event env actor.organisation_id actor.user_id "runbook.created" "runbook"
      (runbook_id_of env) "success" (("name", text rb.metadata.name) ∷ [])
  pure (runbook_created (runbook_id_of env) rb.metadata.name)

unfoldable pub handle_create_runbook :
    Env → Reader → Actor → Option RunbookRequest → Db → Reply × Db
handle_create_runbook env reader actor body = respond (create_runbook env reader actor body)

-- A runbook that is not archived, with the number of its version, 0 when it has none.
abbrev is_current : String → String → RunbookRow → Bool
is_current name org r = is_runbook name org r && not (is_archived r.status)

abbrev number_of : Option RunbookVersion → ℤ
number_of none = pos 0
number_of (some v) = v.version

abbrev with_number : Db → Option RunbookRow → Option (RunbookRow × ℤ)
with_number db none = none
with_number db (some r) =
    some (r, number_of (find (is_version r.current_version_id) db.runbook_versions))

unfoldable pub find_current : String → String → Db → Option (RunbookRow × ℤ)
find_current name org db = with_number db (find (is_current name org) db.runbooks)

abbrev pub revised_row : Env → RunbookRequest → Runbook → RunbookRow → RunbookRow
revised_row env q rb r = record r {
  title = or_default q.title rb.metadata.title;
  description = or_default q.description rb.metadata.description;
  status = draft;
  current_version_id = some (version_id_of env);
}

unfoldable pub update_runbook_tx :
    Env → Actor → RunbookRequest → String → Runbook → Action Reply (Unit {0})
unfolding insert_version
update_runbook_tx env actor q id rb = do
  insert_version env actor id q.allowed_roles rb
  refuse_if (env.fails "failed to update runbook") (failure 500 "failed to update runbook")
  modify (λ db. record db {
    runbooks =
        update (λ r. r.id == id && r.organisation_id == actor.organisation_id)
          (revised_row env q rb) db.runbooks;
  })
  refuse_if (env.fails "failed to commit update") (failure 500 "failed to commit update")

unfoldable pub update_runbook :
    Env → Reader → Actor → String → Option RunbookRequest → Action Reply Reply
unfolding or_bad_request
update_runbook env reader actor name body = do
  when (not (is_senior actor)) (
      write_denial env actor "runbook.updated" "runbook" name
        (deny "runbook_requires_senior" "Updating runbooks requires senior engineer or above."))
  q ← or_raise body (failure 400 "invalid request body")
  refuse_if (env.fails "find runbook") (failure 404 "runbook not found")
  found ← gets (find_current name actor.organisation_id)
  (row, version) ← or_raise found (failure 404 "runbook not found")
  rb ← or_bad_request (revised_runbook reader q row.name version)
  refuse_if (not (q.allowed_roles == "") && not (valid_allowed_roles reader q.allowed_roles))
      (failure 400 "allowed_roles must be a JSON array of known roles")
  refuse_if (env.fails "failed to start update") (failure 500 "failed to start update")
  transaction (update_runbook_tx env actor q row.id rb)
  write_audit_event env actor.organisation_id actor.user_id "runbook.updated" "runbook" row.id
      "success" (("version", number rb.metadata.version) ∷ [])
  pure (drafted rb.metadata.version)

unfoldable pub handle_update_runbook :
    Env → Reader → Actor → String → Option RunbookRequest → Db → Reply × Db
handle_update_runbook env reader actor name body =
    respond (update_runbook env reader actor name body)

-- The two updates are not joined by a transaction.
unfoldable pub publish_runbook : Env → Actor → String → Action Reply Reply
publish_runbook env actor name = do
  when (not (is_senior actor)) (
      write_denial env actor "runbook.published" "runbook" ""
        (deny "publish_requires_senior" "Publishing runbooks requires senior engineer or above."))
  refuse_if (env.fails "find runbook") (failure 404 "runbook not found")
  found ← gets (λ db. with_version db (find (is_runbook name actor.organisation_id) db.runbooks))
  (row, version) ← or_raise found (failure 404 "runbook not found")
  refuse_if (env.fails "failed to publish runbook") (failure 500 "failed to publish runbook")
  modify (λ db. record db {
    runbooks = update (λ r. r.id == row.id) (λ r. record r { status = published }) db.runbooks;
  })
  refuse_if (env.fails "failed to publish runbook version")
      (failure 500 "failed to publish runbook version")
  modify (λ db. record db {
    runbook_versions =
        update (λ v. v.id == version.id)
          (λ v. record v {
            status = published;
            published_by_user_id = some actor.user_id;
            published_at = some env.now;
          })
          db.runbook_versions;
  })
  write_audit_event env actor.organisation_id actor.user_id "runbook.published" "runbook" row.id
      "success" []
  pure (status 200 "published")

unfoldable pub handle_publish_runbook : Env → Actor → String → Db → Reply × Db
handle_publish_runbook env actor name = respond (publish_runbook env actor name)

unfoldable pub archive_runbook : Env → Actor → String → Action Reply Reply
archive_runbook env actor name = do
  when (not (is_senior actor)) (
      write_denial env actor "runbook.archived" "runbook" name
        (deny "runbook_requires_senior" "Archiving runbooks requires senior engineer or above."))
  refuse_if (env.fails "failed to archive runbook") (failure 500 "failed to archive runbook")
  n ← gets (λ db. count (is_current name actor.organisation_id) db.runbooks)
  modify (λ db. record db {
    runbooks =
        update (is_current name actor.organisation_id) (λ r. record r { status = archived })
          db.runbooks;
  })
  refuse_if (eqb n 0) (failure 404 "runbook not found")
  write_audit_event env actor.organisation_id actor.user_id "runbook.archived" "runbook" name
      "success" []
  pure (status 200 "archived")

unfoldable pub handle_archive_runbook : Env → Actor → String → Db → Reply × Db
handle_archive_runbook env actor name = respond (archive_runbook env actor name)
