-- ===== src/Queue/Claim/Grant.antt =====
-- What a claim that hands out a job does (apps/api/jobs.go).
use vpstools.Base.{
  ◌≡◌, ◌≢◌, refl, String, Bool, true, false, Option, none, some, List, arith, All, Has,
}
use vpstools.Base.Table.{update, count}
use vpstools.Store.Rows.{Db, Target}
use vpstools.Store.Action.{ok, Env, ◌>>=◌}
use vpstools.Audit.{record_execution_event}
use vpstools.Queue.Reconcile.{reconcile_expired_leases}
use vpstools.Jobsign.{Claims}
use vpstools.Queue.Claim.{Row, claim_query, take_row, claim_tx, takes, lease, claims_of, join}
use vpstools.Queue.Claim.Choice.{claim_query-oldest, Candidate, Beaten}

module _ (env : Env) (org runner : String) (r : Row) (db : Db) where
  -- The one row that is taken, with its lease.
  taken :
      (c : Claims)
      → (take_row env org runner (some r) db).0 ≡ ok (some c)
      → (c ≡ claims_of env runner r)
        × ((take_row env org runner (some r) db).1.targets
            ≡ update (takes env.now r.target) (lease env runner) db.targets)
        × (count (takes env.now r.target) db.targets ≡ 1)
  unfolding take_row record_execution_event ◌>>=◌
  taken c e = (ground arith, ground arith, ground arith)

-- Without a row there is no job.
nothing_taken :
    (env : Env) (org runner : String) (db : Db) (c : Claims)
    → (take_row env org runner none db).0 ≢ ok (some c)
unfolding take_row ◌>>=◌
nothing_taken env org runner db c e = ground arith

module _ (env : Env) (org runner filter : String) where
  -- The tables that the query sees: swept when the sweep of the organisation is due.
  unfoldable pub seen : Bool → Db → Db
  seen true db = (reconcile_expired_leases env org db).1
  seen false db = db

  query_of :
      (due : Bool) (db : Db) (c : Claims)
      → (claim_tx env org runner filter due db).0 ≡ ok (some c)
      → claim_tx env org runner filter due db
        ≡ take_row env org runner
            (claim_query env org runner filter (seen due db) (seen due db).targets)
            (seen due db)
  unfolding claim_tx seen ◌>>=◌
  query_of true db c e =
      ground (arith, nothing_taken env org runner (reconcile_expired_leases env org db).1 c)
  query_of false db c e = ground (arith, nothing_taken env org runner db c)

  -- What a claim of `c` over the tables `before`, which leaves the targets `after`, has granted.
  abbrev pub Grants : Db → Claims → List Target → Type 0
  Grants before c after =
      (r : Row) × Candidate env org runner filter before r
      × (join before r.target ≡ some r)
      × Has r.target before.targets
      × All (Beaten env org runner filter before (some r)) before.targets
      × (c ≡ claims_of env runner r)
      × (after ≡ update (takes env.now r.target) (lease env runner) before.targets)
      × (count (takes env.now r.target) before.targets ≡ 1)

  granted_from :
      (before : Db) (row : Option Row) (c : Claims)
      → claim_query env org runner filter before before.targets ≡ row
      → (take_row env org runner row before).0 ≡ ok (some c)
      → Grants before c (take_row env org runner row before).1.targets
  granted_from before none c q e = absurd (nothing_taken env org runner before c e)
  granted_from before (some r) c q e =
      let picked = claim_query-oldest env org runner filter before before.targets in
      let chosen = rw q at picked.0 in
      let effect = taken env org runner r before c e in
      (r, chosen.0, chosen.1, chosen.2, rw q at picked.1, effect.0, effect.1, effect.2)

  -- A claim that hands out a job hands out the oldest candidate of the tables that its query sees: a live
  -- execution of the organisation, a target that is ready, attempts left, and an active runner whose
  -- scopes cover the server. The job is that target's, and exactly one row changes among the targets:
  -- it is leased to the runner, for five minutes, with one attempt more.
  pub claim_tx-Grants :
      (due : Bool) (db : Db) (c : Claims)
      → (claim_tx env org runner filter due db).0 ≡ ok (some c)
      → Grants (seen due db) c (claim_tx env org runner filter due db).1.targets
  claim_tx-Grants due db c e =
      let q = query_of due db c e in rw q (granted_from (seen due db) _ c refl (rw q at e))
