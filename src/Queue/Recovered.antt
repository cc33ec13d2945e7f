-- ===== src/Queue/Recovered.antt =====
-- What a sweep achieves (apps/api/queue.go).
use vpstools.Base.{
  ℕ, ◌+◌, ◌≡◌, ◌⊎◌, refl, String, true, false, Option, List, [], ◌∷◌, arith, ◌==◌, eq_iff, eq_refl,
  All, All-weaken, inl, inr, Bool-cases, if◌then◌else◌, leb,
}
use vpstools.Base.Table.{select, update, exists}
use vpstools.Store.Status.{Status}
use vpstools.Store.Rows.{Db, Execution, Target, Metadata}
use vpstools.Store.Action.{ok, Env, modify, refuse_if, ◌>>=◌}
use vpstools.Store.Keeps.{Keeps, Keeps-modify, keeps_rules}
use vpstools.Store.Ends.{Ends, Ends-then, Ends-kept, Ends-modify, Ends-bind, Ends-if}
use vpstools.Audit.{record_execution_event}
use vpstools.Queue.Backoff.{retry_backoff_seconds}
use vpstools.Queue.Reconcile.{
  reconcile_target, reconcile_each, finalize_reconciled_executions, reconcile_expired_leases, bury,
  requeue, still_running, is_expired,
}

module _ (env : Env) (org : String) (live : List Execution) where
  -- Each expired target has an id of the list.
  abbrev Covered : List Target → Db → Type 0
  Covered xs db =
      All (λ u. is_expired env org live u ≡ true → exists (λ x. x.id == u.id) xs ≡ true) db.targets

  still_covered :
      (x u : Target) (xs : List Target)
      → still_running x.id u ≡ false
      → is_expired env org live u ≡ true
      → exists (λ y. y.id == u.id) (x ∷ xs) ≡ true
      → exists (λ y. y.id == u.id) xs ≡ true
  unfolding exists
  still_covered x u xs miss e h = ground (arith, miss, e, h, eq_iff x.id u.id, eq_iff u.id x.id)

  covered_move :
      (x : Target) (xs : List Target) (f : Target → Target) (l : List Target)
      → ((u : Target) → is_expired env org live (f u) ≡ false)
      → All (λ u. is_expired env org live u ≡ true → exists (λ y. y.id == u.id) (x ∷ xs) ≡ true) l
      → All
          (λ u. is_expired env org live u ≡ true → exists (λ y. y.id == u.id) xs ≡ true)
          (update (still_running x.id) f l)
  unfolding update exists
  covered_move x xs f [] over h = tt
  covered_move x xs f (u ∷ l) over h =
      (moved (Bool-cases (still_running x.id u)), covered_move x xs f l over h.1)
    where
      moved :
          ((still_running x.id u ≡ true) ⊎ (still_running x.id u ≡ false))
          → is_expired env org live (if still_running x.id u then f u else u) ≡ true
          → exists (λ y. y.id == (if still_running x.id u then f u else u).id) xs ≡ true
      moved (inl hit) e = ground (arith, hit, over u, e)
      moved (inr miss) e = rw miss (still_covered x u xs miss (rw miss at e) (h.0 (rw miss at e)))

  others_stay :
      {E : Type 0} (xs : List Target) (f : Db → Db)
      → ((db : Db) → (f db).targets ≡ db.targets)
      → Keeps {E = E} (Covered xs) (modify f)
  others_stay xs f h = Keeps-modify f (λ db c. rw (h db) c)

  buried_over : (u : Target) → is_expired env org live (bury env u) ≡ false
  buried_over u = ground arith

  requeued_over : (at : ℕ) (u : Target) → is_expired env org live (requeue at u) ≡ false
  requeued_over at u = ground arith

  record_execution_event-Covered :
      (xs : List Target) (execution target : String) (from : Option Status) (to : Status)
      (event : String) (metadata : Metadata)
      → Keeps (Covered xs) (record_execution_event env org execution target from to event metadata)
  unfolding record_execution_event
  record_execution_event-Covered xs execution target from to event metadata =
      search (keeps_rules, others_stay xs)

  reconcile_target-Covered :
      (x : Target) (xs : List Target)
      → Ends (Covered (x ∷ xs)) (reconcile_target env org x) (λ u. Covered xs)
  unfolding reconcile_target
  reconcile_target-Covered x xs =
      Ends-if (leb x.max_attempts x.attempt) _ _
        (Ends-bind _ _ (search keeps_rules) (λ u.
          Ends-then _ _ (Ends-modify _ (λ db. covered_move x xs (bury env) db.targets buried_over))
            (λ v. Ends-kept _ (record_execution_event-Covered xs _ _ _ _ _ _))))
        (Ends-bind _ _ (search keeps_rules) (λ u.
          Ends-then _ _
            (Ends-modify _ (λ db.
              covered_move x xs (requeue (env.now + retry_backoff_seconds x.attempt)) db.targets
                (requeued_over (env.now + retry_backoff_seconds x.attempt))))
            (λ v. Ends-kept _ (record_execution_event-Covered xs _ _ _ _ _ _))))

  reconcile_each-Covered :
      (xs : List Target) → Ends (Covered xs) (reconcile_each env org xs) (λ u. Covered [])
  unfolding reconcile_each
  reconcile_each-Covered [] = Ends-kept _ (search keeps_rules)
  reconcile_each-Covered (x ∷ xs) =
      Ends-then _ _ (reconcile_target-Covered x xs) (λ u. reconcile_each-Covered xs)

  finalize-Covered : Keeps (Covered []) (finalize_reconciled_executions env org)
  unfolding finalize_reconciled_executions
  finalize-Covered = search (keeps_rules, others_stay)

  rest-Covered :
      (xs : List Target)
      → Ends
          (Covered xs)
          (reconcile_each env org xs >>= λ u. finalize_reconciled_executions env org)
          (λ u. Covered [])
  rest-Covered xs = Ends-then _ _ (reconcile_each-Covered xs) (λ u. Ends-kept _ finalize-Covered)

  none_of :
      (u : Target)
      → (is_expired env org live u ≡ true → exists (λ (x : Target). x.id == u.id) [] ≡ true)
      → is_expired env org live u ≡ false
  unfolding exists
  none_of u c = elim (Bool-cases (is_expired env org live u)) [
    | inl e ↦ ground (arith, c e)
    | inr e ↦ e
  ]

  -- Every row that a query passes has its id among the rows that it returns.
  select-covers :
      (l : List Target)
      → All
          (λ u.
            is_expired env org live u ≡ true
            → exists (λ x. x.id == u.id) (select (is_expired env org live) l) ≡ true)
          l
  unfolding select exists
  select-covers [] = tt
  select-covers (x ∷ l) = (
    λ e. rw (e, eq_refl x.id) refl,
    All-weaken _ _ l (λ u c. λ e. more u (c e)) (select-covers l),
  )
    where
      more :
          (u : Target)
          → exists (λ y. y.id == u.id) (select (is_expired env org live) l) ≡ true
          → exists (λ y. y.id == u.id) (select (is_expired env org live) (x ∷ l)) ≡ true
      more u c = elim (Bool-cases (is_expired env org live x)) [
        | inl hit ↦ rw hit (ground (arith, c))
        | inr miss ↦ rw miss c
      ]

module _ (env : Env) (org : String) (up : (what : String) → env.fails what ≡ false) where
  target_succeeds : (x : Target) (db : Db) → (reconcile_target env org x db).0 ≡ ok tt
  unfolding reconcile_target record_execution_event ◌>>=◌
  target_succeeds x db = ground (
    arith,
    up "bury target",
    up "requeue target",
    up "execution.target.dead_lettered",
    up "execution.target.lease_expired",
  )

  each_succeeds : (xs : List Target) (db : Db) → (reconcile_each env org xs db).0 ≡ ok tt
  unfolding reconcile_each ◌>>=◌
  each_succeeds [] db = refl
  each_succeeds (x ∷ xs) db =
      rw (target_succeeds x db) (each_succeeds xs (reconcile_target env org x db).1)

  finalize_succeeds : (db : Db) → (finalize_reconciled_executions env org db).0 ≡ ok tt
  unfolding finalize_reconciled_executions ◌>>=◌
  finalize_succeeds db = ground (arith, up "finalize executions")

  rest_succeeds :
      (xs : List Target) (db : Db)
      → ((reconcile_each env org xs >>= λ u. finalize_reconciled_executions env org) db).0 ≡ ok tt
  unfolding ◌>>=◌
  rest_succeeds xs db =
      rw (each_succeeds xs db) (finalize_succeeds (reconcile_each env org xs db).1)

  swept :
      (db : Db)
      → reconcile_expired_leases env org db
        ≡ (reconcile_each env org (select (is_expired env org db.executions) db.targets) >>= λ u.
              finalize_reconciled_executions env org)
            db
  unfolding reconcile_expired_leases ◌>>=◌
  swept db = rw (up "read expired leases", refuse_if) refl

  -- When no statement fails, a sweep of an organisation succeeds, and no running target of it is left whose
  -- lease has expired, of an execution that was queued or running before the sweep.
  pub sweep_recovers :
      (db : Db)
      → ((reconcile_expired_leases env org db).0 ≡ ok tt)
        × All
            (λ u. is_expired env org db.executions u ≡ false)
            (reconcile_expired_leases env org db).1.targets
  sweep_recovers db =
      let xs = select (is_expired env org db.executions) db.targets in
      let done = rest_succeeds xs db in
      (
        rw (swept db) done,
        rw (swept db) (
            All-weaken _ _ _ (none_of env org db.executions) (
              (rest-Covered env org db.executions xs).run db
                (select-covers env org db.executions db.targets) tt done)),
      )
