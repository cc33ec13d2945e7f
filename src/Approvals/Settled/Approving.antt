-- ===== src/Approvals/Settled/Approving.antt =====
-- The invariant of approval requests across an approval (apps/api/runbooks.go).
use vpstools.Base.{
  ℕ, ◌+◌, ◌≤◌, ◌≡◌, ◌≢◌, refl, ◌∙◌, String, Bool, true, false, some, [], ◌∷◌, ◌++◌, arith, ◌==◌,
  eqb, if◌then◌else◌,
}
use vpstools.Base.Table.{count}
use vpstools.Store.Catalogue.{ApprovalRequest, approved}
use vpstools.Store.Rows.{Db, Execution}
use vpstools.Store.Action.{Env, ok, when, modify, ◌>>=◌}
use vpstools.Store.Keeps.{Keeps, keeps_rules}
use vpstools.Store.Ends.{
  Ends, Ends-then, Ends-bind, Ends-kept, Ends-modify, Keeps-transaction_of_Ends,
}
use vpstools.Authz.{Actor}
use vpstools.Runners.Reply.{Reply}
use vpstools.Approvals.Request.{Outside}
use vpstools.Approvals.Decide.{mark, undecided, create_execution_from_approval, approve_tx, approve}
use vpstools.Approvals.Settled.{
  IsSettled, carries, has_id, granted, count-append, count-has_id, count-approved, count-open,
}
use vpstools.Approvals.Settled.Handlers.{settled_rules}

module _ (env : Env) (out : Outside) (actor : Actor) (id note : String) where
  -- The request is marked, and its execution is still to come.
  abbrev Half : Db → Type 0
  Half db =
      (x : String)
      → (count (carries x) db.executions + (if id == x then 1 else 0)
          ≡ count (granted x) db.approvals)
        × (count (has_id x) db.approvals ≤ 1)

  abbrev Marked : ℕ → Db → Type 0
  Marked n db = eqb n 0 ≡ false → Half db

  mark-Marked : Ends IsSettled (mark env actor approved id note) Marked
  unfolding mark ◌>>=◌
  mark-Marked = record {
    run = λ db h n e some_row x. (
      ground (
        arith,
        h x,
        h id,
        count-approved env actor note id x db.approvals,
        count-open env actor note id db.approvals,
      ),
      ground (arith, h x, count-has_id env actor note id approved x db.approvals),
    );
  }

  undecided-fails :
      (message : String) (db : Db) (u : Unit {0}) → (undecided env actor id message db).0 ≢ ok u
  unfolding undecided ◌>>=◌
  undecided-fails message db u e = ground arith

  -- Without a row the transaction fails.
  checked-Half :
      (none_marked : Bool) (message : String)
      → Ends
          (λ db. none_marked ≡ false → Half db)
          (when none_marked (undecided env actor id message))
          (λ u. Half)
  unfolding when
  checked-Half false message = record { run = λ db h u e. h refl }
  checked-Half true message = record { run = λ db h u e. absurd (undecided-fails message db u e) }

  created :
      (e : Execution)
      → e.approval_id ≡ some id
      → Ends {E = Reply} Half
          (modify (λ db. record db { executions = db.executions ++ e ∷ [] }))
          (λ u. IsSettled)
  unfolding count
  created e own = Ends-modify _ (λ db h x.
      (count-append (carries x) db.executions (e ∷ []) ∙ rw own (ground (arith, h x)), (h x).1))

  create-IsSettled :
      (a : ApprovalRequest)
      → Ends Half (create_execution_from_approval env out actor id a) (λ u. IsSettled)
  unfolding create_execution_from_approval
  create-IsSettled a = Ends-bind _ _ (search keeps_rules) (λ i.
      Ends-bind _ _ (search keeps_rules) (λ u.
        Ends-bind _ _ (search keeps_rules)
          (λ v. Ends-then _ _ (created _ refl) (λ w. Ends-kept _ (search settled_rules)))))

  approve_tx-IsSettled :
      (a : ApprovalRequest) → Ends IsSettled (approve_tx env out actor id note a) (λ r. IsSettled)
  unfolding approve_tx
  approve_tx-IsSettled a = Ends-bind _ _ (search keeps_rules) (λ u. Ends-then _ _ mark-Marked (λ n.
      Ends-bind _ _ (search keeps_rules) (λ v.
        Ends-then _ _ (checked-Half (eqb n 0) _)
          (λ w. Ends-then _ _ (create-IsSettled a) (λ x. Ends-kept _ (search settled_rules))))))

  pub approve-IsSettled : Keeps IsSettled (approve env out actor id note)
  unfolding approve
  approve-IsSettled =
      search (settled_rules, Keeps-transaction_of_Ends, approve_tx-IsSettled) depth 20
