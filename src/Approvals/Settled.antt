-- ===== src/Approvals/Settled.antt =====
-- The invariant of approval requests and executions: the rows that a statement changes
-- (apps/api/runbooks.go).
pub mod Handlers
pub mod Approving
pub mod Reach
use vpstools.Base.{
  ℕ, suc, zero, ◌+◌, ◌≤◌, ◌≡◌, refl, sym, ◌∙◌, String, Bool, true, false, not, ◌&&◌, Option, none,
  some, List, [], ◌∷◌, ◌++◌, arith, ◌==◌, eq_iff, holds, Bool-cases, inl, inr, if◌then◌else◌,
}
use vpstools.Base.Table.{update, count, exists}
use vpstools.Store.Catalogue.{
  ApprovalRequest, ApprovalStatus, waiting, approved, denied, is_waiting, is_approved,
}
use vpstools.Store.Rows.{Db, Execution}
use vpstools.Store.Action.{Env}
use vpstools.Authz.{Actor}
use vpstools.Approvals.Decide.{is_undecided, decide}

-- The execution was created for the request.
abbrev pub carries : String → Execution → Bool
carries id e = holds e.approval_id id

abbrev pub has_id : String → ApprovalRequest → Bool
has_id id a = a.id == id

abbrev pub granted : String → ApprovalRequest → Bool
granted id a = a.id == id && is_approved a.status

-- Each request that was approved has one execution, no other has any; and no two requests have one id.
abbrev pub IsSettled : Db → Type 0
IsSettled db =
    (id : String)
    → (count (carries id) db.executions ≡ count (granted id) db.approvals)
      × (count (has_id id) db.approvals ≤ 1)

module _ {ℓ} {A : Type ℓ} (p : A → Bool) where
  pub count-append : (l m : List A) → count p (l ++ m) ≡ count p l + count p m
  unfolding count
  count-append [] m = omega arith
  count-append (x ∷ l) m = ground (arith, count-append l m)

  pub count-exists : (l : List A) → exists p l ≡ false → count p l ≡ 0
  unfolding count exists
  count-exists [] h = refl
  count-exists (x ∷ l) h = ground (arith, count-exists l)

waiting_excludes_approved : (s : ApprovalStatus) → is_waiting s ≡ true → is_approved s ≡ false
waiting_excludes_approved waiting h = refl
waiting_excludes_approved approved h = cc
waiting_excludes_approved denied h = refl

module _ (env : Env) (actor : Actor) (note id : String) where
  abbrev open_request : ApprovalRequest → Bool
  open_request = is_undecided id actor.organisation_id env.now

  pub count-has_id :
      (d : ApprovalStatus) (x : String) (l : List ApprovalRequest)
      → count (has_id x) (update open_request (decide env actor d note) l) ≡ count (has_id x) l
  unfolding count update
  count-has_id d x [] = refl
  count-has_id d x (a ∷ l) = ground (arith, count-has_id d x l)

  pub count-denied :
      (x : String) (l : List ApprovalRequest)
      → count (granted x) (update open_request (decide env actor denied note) l)
        ≡ count (granted x) l
  unfolding count update
  count-denied x [] = refl
  count-denied x (a ∷ l) = ground (arith, count-denied x l, waiting_excludes_approved a.status)

  pub count-approved :
      (x : String) (l : List ApprovalRequest)
      → count (granted x) (update open_request (decide env actor approved note) l)
        ≡ count (granted x) l + (if id == x then count open_request l else 0)
  unfolding count update
  count-approved x [] = ground arith
  count-approved x (a ∷ l) = ground (
    arith,
    count-approved x l,
    waiting_excludes_approved a.status,
    eq_iff a.id id,
    eq_iff a.id x,
    eq_iff id x,
  )

  pub count-open : (l : List ApprovalRequest) → count open_request l ≤ count (has_id id) l
  unfolding count
  count-open [] = omega arith
  count-open (a ∷ l) = ground (arith, count-open l)
