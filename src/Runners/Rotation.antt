-- ===== src/Runners/Rotation.antt =====
-- Rotation and revocation: which credentials still speak for a runner afterwards.
use vpstools.Base.{
  ℕ, ◌+◌, String, ◌≡◌, ◌≢◌, false, none, some, List, [], ◌∷◌, ◌++◌, arith, ◌==◌, append-nil, eq_iff,
  eq_refl,
}
use vpstools.Base.Int.{pos}
use vpstools.Base.Table.{find, update}
use vpstools.Authz.{Actor}
use vpstools.Store.Rows.{Db, Credential, revoked, number}
use vpstools.Store.Action.{ok, Env}
use vpstools.Audit.Write.{write_audit_event-audit}
use vpstools.Runners.Reply.{Reply, status}
use vpstools.Runners.Denial.{write_denial-err}
use vpstools.Runners.Auth.{accepts, authenticate_bound_runner}
use vpstools.Runners.Auth.Binding.{Speaks, authenticate_bound_runner-Speaks}
use vpstools.Runners.Credentials.{current_for, management_required, create_runner_credential}
use vpstools.Runners.Manage.{manageable, handle_revoke_runner}

-- The rows with the current credentials of a runner revoked.
abbrev retired : ℕ → String → List Credential → List Credential
retired now runner = update (current_for runner) (λ c. record c { revoked_at = some now })

-- No retired row is accepted for the runner; what is, comes from the rows behind it.
retired-find :
    (env : Env) (token runner : String) (now : ℕ) (l m : List Credential) (c : Credential)
    → find (accepts env token) (retired now runner l ++ m) ≡ some c
    → c.runner_id ≡ some runner
    → find (accepts env token) m ≡ some c
unfolding find update
retired-find env token runner now [] m c h e = h
retired-find env token runner now (x ∷ l) m c h e =
    ground (arith, eq_refl runner, retired-find env token runner now l m c)

module _ (env : Env) (org actor runner : String) (db : Db) where
  abbrev issued : Credential
  issued = record {
    id = env.fresh "credential";
    organisation_id = org;
    runner_id = some runner;
    token_hash = env.hash_token (env.fresh "token");
    expires_at = env.now + 2592000;
    revoked_at = none;
  }

  rotated :
      (t : String)
      → (runner == "") ≡ false
      → (create_runner_credential env org actor runner db).0 ≡ ok t
      → ((create_runner_credential env org actor runner db).1.credentials
          ≡ retired env.now runner db.credentials ++ issued ∷ [])
        × ((create_runner_credential env org actor runner db).1.runners ≡ db.runners)
        × (t ≡ env.fresh "token")
  unfolding create_runner_credential
  rotated t named done = ground (
    arith,
    write_audit_event-audit {E = String} env org actor "runner.credential.rotated" "runner" runner
        "success" (("expires_in", number (pos 2592000)) ∷ [])
        (record db { credentials = retired env.now runner db.credentials ++ issued ∷ [] }),
  )

  accepted_hash :
      (e : Env) (token : String) (c : Credential)
      → find (accepts e token) (issued ∷ []) ≡ some c
      → env.hash_token (env.fresh "token") ≡ e.hash_token token
  unfolding find
  accepted_hash e token c h =
      ground (arith, eq_iff (env.hash_token (env.fresh "token")) (e.hash_token token))

  -- After a rotation for a runner, a token speaks for that runner, in any organisation and at any
  -- time, only if it has the hash of the token that the rotation returned: every earlier token is
  -- dead, whichever credentials the runner had.
  pub rotation-exclusive :
      (t : String)
      → (runner == "") ≡ false
      → (create_runner_credential env org actor runner db).0 ≡ ok t
      → (later : Env) (token any_org : String)
      → Speaks later token any_org runner (create_runner_credential env org actor runner db).1
      → env.hash_token t ≡ later.hash_token token
  rotation-exclusive t named done later token any_org s =
      let r = rotated t named done in
      rw r.2 (
        accepted_hash later token s.credential (
          retired-find later token runner env.now db.credentials (issued ∷ []) s.credential
            (rw r.0 at s.stored) s.bound))

-- A revocation that reports success.
module _ (env : Env) (actor : Actor) (id : String) (db : Db) where
  revoked_credentials :
      (handle_revoke_runner env actor id db).0 ≡ status 200 "revoked"
      → (handle_revoke_runner env actor id db).1.credentials ≡ retired env.now id db.credentials
  unfolding handle_revoke_runner
  revoked_credentials done = ground (
    arith,
    write_denial-err env actor "runner.revoked" "runner" id management_required db,
    write_audit_event-audit {E = Reply} env actor.organisation_id actor.user_id "runner.revoked"
        "runner" id "success" []
        (record db {
          credentials = retired env.now id db.credentials;
          runners =
              update (manageable id actor.organisation_id)
                (λ r. record r { status = revoked; revoked_at = some env.now }) db.runners;
        }),
  )

  -- After a revocation that reports success no token speaks for the runner, in any organisation.
  pub revocation_final :
      (handle_revoke_runner env actor id db).0 ≡ status 200 "revoked"
      → (later : Env) (token any_org : String)
      → (authenticate_bound_runner later token id (handle_revoke_runner env actor id db).1).0
        ≢ ok any_org
  unfolding find
  revocation_final done later token any_org accepted =
      let s =
        authenticate_bound_runner-Speaks later token id any_org
          (handle_revoke_runner env actor id db).1 accepted in
      let none_left =
        retired-find later token id env.now db.credentials [] s.credential
          (rw (revoked_credentials done, ← append-nil (retired env.now id db.credentials)) at
            s.stored)
          s.bound in
      cc none_left
