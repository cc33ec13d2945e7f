-- ===== src/Runners/Auth/Binding.antt =====
-- Whom a runner credential speaks for.
use vpstools.Base.{
  String, ◌≡◌, ◌≢◌, none, some, arith, eq_iff, coalesce, subst, inl, inr, Option-cases,
}
use vpstools.Base.Table.{find}
use vpstools.Store.Rows.{Db, Credential, Runner, revoked}
use vpstools.Store.Action.{ok, Env}
use vpstools.Runners.Auth.{
  accepts, is_runner, authenticate_runner_credential, authenticate_bound_runner,
}

-- What a bound credential stands for: an unexpired, unrevoked row with the hash of the token, that
-- names the runner, and a runner of the organisation that is not revoked.
pub record Speaks (env : Env) (token org runner : String) (db : Db) : Type 0 where
  pub credential : Credential
  pub stored : find (accepts env token) db.credentials ≡ some credential
  pub owner : credential.organisation_id ≡ org
  pub bound : credential.runner_id ≡ some runner
  pub current : Runner
  pub known : find (is_runner runner credential.organisation_id) db.runners ≡ some current
  pub not_revoked : current.status ≢ revoked

-- The check of a credential reads the tables and changes nothing.
pub authenticate_bound_runner-unchanged :
    (env : Env) (token requested : String) (db : Db)
    → (authenticate_bound_runner env token requested db).1 ≡ db
unfolding authenticate_bound_runner
authenticate_bound_runner-unchanged env token requested db = ground arith

pub authenticate_runner_credential-unchanged :
    (env : Env) (token : String) (db : Db) → (authenticate_runner_credential env token db).1 ≡ db
unfolding authenticate_runner_credential
authenticate_runner_credential-unchanged env token db = ground arith

module _ (env : Env) (token requested org : String) (db : Db) where
  abbrev Accepted : Type 0
  Accepted = (authenticate_bound_runner env token requested db).0 ≡ ok org

  no_credential : find (accepts env token) db.credentials ≡ none → ¬ Accepted
  unfolding authenticate_bound_runner
  no_credential n h = ground arith

  module _ (c : Credential) (stored : find (accepts env token) db.credentials ≡ some c) where
    names_runner : Accepted → (c.runner_id ≡ some requested) × (c.organisation_id ≡ org)
    unfolding authenticate_bound_runner
    names_runner h = (
      ground
          (arith, eq_iff (coalesce c.runner_id "") requested, eq_iff (coalesce c.runner_id "") ""),
      ground arith,
    )

    no_runner :
        find (is_runner (coalesce c.runner_id "") c.organisation_id) db.runners ≡ none → ¬ Accepted
    unfolding authenticate_bound_runner
    no_runner n h = ground arith

    not_revoked :
        (r : Runner)
        → find (is_runner (coalesce c.runner_id "") c.organisation_id) db.runners ≡ some r
        → Accepted
        → r.status ≢ revoked
    unfolding authenticate_bound_runner
    not_revoked r known h e = ground arith

  -- A request is accepted for a runner only if the token hashes to a stored credential, unexpired
  -- and not revoked, that is bound to this very runner, and the runner is in the organisation of
  -- the credential and not revoked.
  pub authenticate_bound_runner-Speaks : Accepted → Speaks env token org requested db
  authenticate_bound_runner-Speaks h =
      elim (Option-cases (find (accepts env token) db.credentials)) [
        | inl n ↦ absurd (no_credential n h)
        | inr (c, stored) ↦
            elim (Option-cases
              (find (is_runner (coalesce c.runner_id "") c.organisation_id) db.runners)) [
                | inl n ↦ absurd (no_runner c stored n h)
                | inr (r, known) ↦
                    let bound = names_runner c stored h in
                    record {
                      credential = c;
                      stored = stored;
                      owner = bound.1;
                      bound = bound.0;
                      current = r;
                      known =
                          subst
                            (λ o.
                              find (is_runner (coalesce o "") c.organisation_id) db.runners
                              ≡ some r)
                            bound.0 known;
                      not_revoked = not_revoked c stored r known h;
                    }
              ]
      ]
