-- ===== src/Queue/Renew/Effect.antt =====
-- What a lease renewal does (apps/api/jobs.go).
use vpstools.Base.{◌+◌, ◌≡◌, ◌≢◌, String, some, arith, inl, inr}
use vpstools.Base.Table.{update, count}
use vpstools.Store.Rows.{Db}
use vpstools.Store.Action.{ok, err, Result-cases, Env, ◌>>=◌}
use vpstools.Runners.Reply.{status, respond}
use vpstools.Runners.Auth.{authenticate_bound_runner}
use vpstools.Runners.Auth.Binding.{
  Speaks, authenticate_bound_runner-Speaks, authenticate_bound_runner-unchanged,
}
use vpstools.Queue.Renew.{renew_for, LeaseRequest, is_held, renew_lease, handle_renew_lease}

module _ (env : Env) (bearer : String) (q : LeaseRequest) (db : Db) where
  no_credential :
      (m : String)
      → (authenticate_bound_runner env bearer q.runner_id db).0 ≡ err m
      → (handle_renew_lease env bearer (some q) db).0 ≢ status 200 "renewed"
  unfolding handle_renew_lease renew_lease renew_for respond ◌>>=◌
  no_credential m e h = ground arith

  extended :
      (org : String)
      → (authenticate_bound_runner env bearer q.runner_id db).0 ≡ ok org
      → (handle_renew_lease env bearer (some q) db).0 ≡ status 200 "renewed"
      → (count (is_held q) db.targets ≢ 0)
        × ((handle_renew_lease env bearer (some q) db).1 ≡ record db {
          targets =
              update
                (is_held q)
                (λ t. record t { lease_expires_at = some (env.now + 300) })
                db.targets;
        })
  unfolding handle_renew_lease renew_lease renew_for respond ◌>>=◌
  extended org e h =
      let same = authenticate_bound_runner-unchanged env bearer q.runner_id db in
      (λ none. ground (arith, same, none), ground (arith, same))

  -- A credential that speaks for the runner, its lease, and the new expiry.
  abbrev pub Renewed : Type 0
  Renewed =
      (org : String) × Speaks env bearer org q.runner_id db
      × (count (is_held q) db.targets ≢ 0)
      × ((handle_renew_lease env bearer (some q) db).1 ≡ record db {
        targets =
            update (is_held q) (λ t. record t { lease_expires_at = some (env.now + 300) })
              db.targets;
      })

  -- A renewal that reports success was asked for with a credential that speaks for the runner it
  -- names; the runner held that very lease; and what changes is the expiry of that lease, to five
  -- minutes from now.
  pub renewal : (handle_renew_lease env bearer (some q) db).0 ≡ status 200 "renewed" → Renewed
  renewal h = elim (Result-cases (authenticate_bound_runner env bearer q.runner_id db).0) [
    | inl (org, e) ↦
        let effect = extended org e h in
        (org, authenticate_bound_runner-Speaks env bearer q.runner_id org db e, effect.0, effect.1)
    | inr (m, e) ↦ absurd (no_credential m e h)
  ]
