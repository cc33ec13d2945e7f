-- ===== src/Queue/Held.antt =====
-- A target under a lease that has not expired (apps/api/jobs.go, queue.go): who may change its row.
pub mod Exclusive
pub mod Isolation
use vpstools.Base.{
  ℕ, ◌+◌, ◌≡◌, ◌≢◌, refl, sym, ap, String, Bool, true, false, not, ◌&&◌, Option, none, some, List,
  [], ◌∷◌, arith, ltb, leb, passed, ◌==◌, eq_iff, All, All-weaken, Has, inl, inr, Bool-cases,
  if◌then◌else◌, ◌⊎◌,
}
use vpstools.Base.Table.{select, update}
use vpstools.Store.Status.{Status, is_running}
use vpstools.Store.Rows.{Db, Target, Metadata}
use vpstools.Store.Action.{ok, err, Result-cases, Action, Env, modify, refuse_if, on_error, ◌>>=◌}
use vpstools.Store.Keeps.{
  Keeps, Keeps-modify, Keeps-bind, Keeps-when, Keeps-on_error, Keeps-transaction, keeps_rules,
}
use vpstools.Audit.{record_execution_event}
use vpstools.Jobsign.{Claims}
use vpstools.Queue.Backoff.{retry_backoff_seconds}
use vpstools.Queue.Reconcile.{
  reconcile_target, reconcile_each, finalize_reconciled_executions, reconcile_expired_leases,
  reconcile_organisations, reconcile_all_organisation_leases, bury, requeue, still_running,
  is_expired,
}
use vpstools.Queue.Claim.{Api, Row, claim_tx, take_row, claim_for, handle_claim_job, lease, takes}
use vpstools.Queue.Renew.{LeaseRequest, renew_lease, is_held}

module _ (t : Target) where
  -- The row is in the table, and no other has its id, the primary key.
  abbrev pub IsStored : Db → Type 0
  IsStored db = Has t db.targets × All (λ x. (x.id == t.id) ≡ true → x ≡ t) db.targets

  -- A row that a test tells from this one has another id.
  apart :
      (p : Target → Bool) (x : Target)
      → p x ≡ true
      → p t ≡ false
      → ((x.id == t.id) ≡ true → x ≡ t)
      → (x.id == t.id) ≡ false
  apart p x hit out u = elim (Bool-cases (x.id == t.id)) [
    | inl e ↦ ground (arith, ap p (u e))
    | inr e ↦ e
  ]

  Has-update :
      (p : Target → Bool) (f : Target → Target) (l : List Target)
      → p t ≡ false
      → Has t l
      → Has t (update p f l)
  unfolding update
  Has-update p f [] out m = absurd m
  Has-update p f (x ∷ l) out (inl e) = inl (rw (e, out) refl)
  Has-update p f (x ∷ l) out (inr m) = inr (Has-update p f l out m)

  Unique-update :
      (p : Target → Bool) (f : Target → Target) (l : List Target)
      → ((x : Target) → (f x).id ≡ x.id)
      → p t ≡ false
      → All (λ x. (x.id == t.id) ≡ true → x ≡ t) l
      → All (λ x. (x.id == t.id) ≡ true → x ≡ t) (update p f l)
  unfolding update
  Unique-update p f [] same out u = tt
  Unique-update p f (x ∷ l) same out u =
      (changed (Bool-cases (p x)), Unique-update p f l same out u.1)
    where
      changed :
          ((p x ≡ true) ⊎ (p x ≡ false))
          → ((if p x then f x else x).id == t.id) ≡ true
          → (if p x then f x else x) ≡ t
      changed (inl hit) e = absurd (ground (arith, apart p x hit out u.0, rw (hit, same x) at e))
      changed (inr miss) e = rw miss (u.0 (rw miss at e))

  module _ {E : Type 0} where
    pub row_move :
        (p : Db → Target → Bool) (f : Target → Target)
        → ((x : Target) → (f x).id ≡ x.id)
        → ((db : Db) → p db t ≡ false)
        → Keeps {E = E} IsStored (modify (λ db. record db { targets = update (p db) f db.targets }))
    row_move p f same out = Keeps-modify _ (λ db h. (
      Has-update (p db) f db.targets (out db) h.0,
      Unique-update (p db) f db.targets same (out db) h.1,
    ))

    pub others_move :
        (f : Db → Db)
        → ((db : Db) → (f db).targets ≡ db.targets)
        → Keeps {E = E} IsStored (modify f)
    others_move f h = Keeps-modify f (λ db s. rw (h db) s)

  -- A query that passes the row over returns rows with other ids only.
  select-apart :
      (p : Target → Bool) (l : List Target)
      → p t ≡ false
      → All (λ x. (x.id == t.id) ≡ true → x ≡ t) l
      → All (λ x. (x.id == t.id) ≡ false) (select p l)
  unfolding select
  select-apart p [] out u = tt
  select-apart p (x ∷ l) out u = elim (Bool-cases (p x)) [
    | inl hit ↦ rw hit (apart p x hit out u.0, select-apart p l out u.1)
    | inr miss ↦ rw miss (select-apart p l out u.1)
  ]

  module _ (env : Env) (org : String) where
    pub record_execution_event-IsStored :
        (execution target : String) (from : Option Status) (to : Status) (event : String)
        (metadata : Metadata)
        → Keeps IsStored (record_execution_event env org execution target from to event metadata)
    unfolding record_execution_event
    record_execution_event-IsStored execution target from to event metadata =
        search (keeps_rules, others_move)

    by_id : (x : Target) → (x.id == t.id) ≡ false → still_running x.id t ≡ false
    by_id x e = ground (arith, eq_iff x.id t.id, eq_iff t.id x.id)

    reconcile_target-IsStored :
        (x : Target) → (x.id == t.id) ≡ false → Keeps IsStored (reconcile_target env org x)
    unfolding reconcile_target
    reconcile_target-IsStored x e = search (
      keeps_rules,
      record_execution_event-IsStored,
      row_move (λ db. still_running x.id) (bury env) (λ y. refl) (λ db. by_id x e),
      row_move (λ db. still_running x.id) (requeue (env.now + retry_backoff_seconds x.attempt))
          (λ y. refl) (λ db. by_id x e),
    )

    reconcile_each-IsStored :
        (xs : List Target)
        → All (λ x. (x.id == t.id) ≡ false) xs
        → Keeps IsStored (reconcile_each env org xs)
    unfolding reconcile_each
    reconcile_each-IsStored [] h = search keeps_rules
    reconcile_each-IsStored (x ∷ xs) h =
        Keeps-bind _ _ (reconcile_target-IsStored x h.0) (λ u. reconcile_each-IsStored xs h.1)

    finalize-IsStored : Keeps IsStored (finalize_reconciled_executions env org)
    unfolding finalize_reconciled_executions
    finalize-IsStored = search (keeps_rules, others_move)

    rest-IsStored :
        (xs : List Target)
        → All (λ x. (x.id == t.id) ≡ false) xs
        → Keeps IsStored (reconcile_each env org xs >>= λ u. finalize_reconciled_executions env org)
    rest-IsStored xs h = Keeps-bind _ _ (reconcile_each-IsStored xs h) (λ u. finalize-IsStored)

    pub reconcile_expired_leases-IsStored :
        passed t.lease_expires_at env.now ≡ false
        → Keeps IsStored (reconcile_expired_leases env org)
    unfolding reconcile_expired_leases ◌>>=◌
    reconcile_expired_leases-IsStored live = record {
      run = λ db s. elim (Bool-cases (env.fails "read expired leases")) [
        | inl down ↦ rw (down, refuse_if) s
        | inr up ↦
            rw (up, refuse_if)
              ((rest-IsStored (select (is_expired env org db.executions) db.targets) (
                  select-apart (is_expired env org db.executions) db.targets (ground (arith, live))
                    s.1)).run
                db s)
      ];
    }
