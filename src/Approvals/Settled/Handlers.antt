-- ===== src/Approvals/Settled/Handlers.antt =====
-- The invariant of approval requests across runs and denials (apps/api/runbooks.go).
use vpstools.Base.{
  ℕ, ◌≡◌, refl, sym, ◌∙◌, String, Bool, true, false, ◌||◌, Option, none, List, [], ◌∷◌, ◌++◌, arith,
  ◌==◌, eq_iff, Bool-cases, inl, inr, subst,
}
use vpstools.Base.Table.{count, exists}
use vpstools.Store.Status.{Status}
use vpstools.Store.Catalogue.{ApprovalRequest, denied, is_approved}
use vpstools.Store.Rows.{Db, Execution, Metadata}
use vpstools.Store.Action.{Action, Env, gets, modify, refuse_if, ◌>>=◌, ◌>>◌}
use vpstools.Store.Keeps.{Keeps, Keeps-modify, Keeps-bind, keeps_rules}
use vpstools.Authz.{Actor, Decision}
use vpstools.Audit.{
  write_audit_event_type, write_audit_event_tx, write_audit_event, record_execution_event,
}
use vpstools.Runners.Denial.{write_denial}
use vpstools.Executions.Create.{CreateError, insert_targets}
use vpstools.Approvals.Request.{RunRequest, Outside, replay_runbook_idempotency}
use vpstools.Approvals.Plan.{Plan, make_plan}
use vpstools.Approvals.Run.{
  new_approval, insert_runbook_key, approval_tx, run_tx, request_approval, run_directly, carry_out,
  run_new, run_runbook,
}
use vpstools.Approvals.Kept.{commit_or_replay-Keeps, rendered-Keeps, unless_replayed-Keeps}
use vpstools.Approvals.Decide.{mark, undecided, deny_request}
use vpstools.Approvals.Settled.{
  IsSettled, carries, has_id, granted, count-append, count-exists, count-has_id, count-denied,
}

module _ {E : Type 0} where
  -- A change of the other tables.
  pub elsewhere :
      (f : Db → Db)
      → ((db : Db) → (f db).executions ≡ db.executions)
      → ((db : Db) → (f db).approvals ≡ db.approvals)
      → Keeps {E = E} IsSettled (modify f)
  elsewhere f same_e same_a = Keeps-modify f (λ db h. rw (same_e db, same_a db) h)

  -- A new execution that was created for no request.
  pub appended :
      (e : Execution)
      → e.approval_id ≡ none
      → Keeps {E = E} IsSettled (modify (λ db. record db { executions = db.executions ++ e ∷ [] }))
  unfolding count
  appended e own = Keeps-modify _ (λ db h x. (
    rw (count-append (carries x) db.executions (e ∷ [])) (rw own (omega (arith, (h x).0))),
    (h x).1,
  ))

pub record_execution_event-IsSettled :
    (env : Env) (org execution target : String) (from : Option Status) (to : Status)
    (event : String) (metadata : Metadata)
    → Keeps IsSettled (record_execution_event env org execution target from to event metadata)
unfolding record_execution_event
record_execution_event-IsSettled env org execution target from to event metadata =
    search (keeps_rules, elsewhere)

pub write_audit_event_tx-IsSettled :
    (env : Env) (org actor action target_type target result : String) (metadata : Metadata)
    → Keeps IsSettled (write_audit_event_tx env org actor action target_type target result metadata)
unfolding write_audit_event_tx write_audit_event_type
write_audit_event_tx-IsSettled env org actor action target_type target result metadata =
    search (keeps_rules, elsewhere)

pub write_audit_event-IsSettled :
    {E : Type 0} (env : Env) (org actor action target_type target result : String)
    (metadata : Metadata)
    → Keeps {E = E} IsSettled
        (write_audit_event env org actor action target_type target result metadata)
unfolding write_audit_event
write_audit_event-IsSettled env org actor action target_type target result metadata = record {
  run =
      (write_audit_event_tx-IsSettled env org actor action target_type target result metadata).run;
}

pub insert_targets-IsSettled :
    (env : Env) (org : String) (ids : List String) → Keeps IsSettled (insert_targets env org ids)
unfolding insert_targets
insert_targets-IsSettled env org [] = search keeps_rules
insert_targets-IsSettled env org (id ∷ ids) = Keeps-bind _ _ (search keeps_rules) (λ u.
    Keeps-bind _ _ (elsewhere _ (λ db. refl) (λ db. refl))
      (λ v. insert_targets-IsSettled env org ids))

pub write_denial-IsSettled :
    (env : Env) (actor : Actor) (action target_type target : String) (d : Decision)
    → Keeps IsSettled (write_denial env actor action target_type target d)
unfolding write_denial
write_denial-IsSettled env actor action target_type target d =
    search (keeps_rules, write_audit_event-IsSettled)

pub ruleset settled_rules = (
  keeps_rules, elsewhere, record_execution_event-IsSettled, write_audit_event_tx-IsSettled,
  write_audit_event-IsSettled, insert_targets-IsSettled, write_denial-IsSettled,
)

-- A new request takes an id that no other has.
added_request :
    (a : ApprovalRequest) (db : Db)
    → is_approved a.status ≡ false
    → exists (λ x. x.id == a.id) db.approvals ≡ false
    → IsSettled db
    → IsSettled (record db { approvals = db.approvals ++ a ∷ [] })
unfolding count
added_request a db unapproved fresh h x =
    let one = count-append (has_id x) db.approvals (a ∷ []) in
    let ones = count-append (granted x) db.approvals (a ∷ []) in
    let none_yet = count-exists (λ y. y.id == a.id) db.approvals fresh in
    elim (Bool-cases (a.id == x)) [
      | inl same ↦
          let e : a.id ≡ x = (eq_iff a.id x).0 same in
          let unused : count (has_id x) db.approvals ≡ 0 =
            subst (λ i. count (has_id i) db.approvals ≡ 0) e none_yet in
          ground (arith, h x, one, ones, unused)
      | inr other ↦ ground (arith, h x, one, ones)
    ]

requested :
    {B : Type 0} (a : ApprovalRequest) (broken : Bool) (e : CreateError) (k : Action CreateError B)
    → is_approved a.status ≡ false
    → Keeps IsSettled k
    → Keeps IsSettled (
        gets (λ db. exists (λ x. x.id == a.id) db.approvals) >>= λ known.
        refuse_if (broken || known) e
        >> (modify (λ db. record db { approvals = db.approvals ++ a ∷ [] }) >> k))
unfolding ◌>>=◌
requested a broken e k unapproved kk = record {
  run = λ db h. go db h broken (exists (λ x. x.id == a.id) db.approvals) refl;
}
  where
    go :
        (db : Db)
        → IsSettled db
        → (b known : Bool) → exists (λ x. x.id == a.id) db.approvals ≡ known
        → IsSettled
            ((refuse_if (b || known) e
                >> (modify (λ db. record db { approvals = db.approvals ++ a ∷ [] }) >> k))
              db).1
    go db h true known f = h
    go db h false true f = h
    go db h false false f = kk.run _ (added_request a db unapproved f h)

insert_runbook_key-IsSettled :
    (env : Env) (actor : Actor) (p : Plan) (resource id : String) (status : ℕ) (body : String)
    → Keeps IsSettled (insert_runbook_key env actor p resource id status body)
unfolding insert_runbook_key
insert_runbook_key-IsSettled env actor p resource id status body = search settled_rules

approval_tx-IsSettled :
    (env : Env) (out : Outside) (actor : Actor) (p : Plan)
    → Keeps IsSettled (approval_tx env out actor p)
unfolding approval_tx
approval_tx-IsSettled env out actor p =
    requested (new_approval env out actor p) (env.fails "failed to create approval request") _ _
      refl (search (settled_rules, insert_runbook_key-IsSettled) depth 20)

run_tx-IsSettled :
    (env : Env) (out : Outside) (actor : Actor) (p : Plan)
    → Keeps IsSettled (run_tx env out actor p)
unfolding run_tx
run_tx-IsSettled env out actor p = Keeps-bind _ _ (search keeps_rules) (λ u.
    Keeps-bind _ _ (appended _ refl)
      (λ v. search (settled_rules, insert_runbook_key-IsSettled) depth 20))

ruleset run_rules =
    (settled_rules, approval_tx-IsSettled, run_tx-IsSettled, commit_or_replay-Keeps, rendered-Keeps)

carry_out-IsSettled :
    (env : Env) (out : Outside) (actor : Actor) (p : Plan)
    → Keeps IsSettled (carry_out env out actor p)
unfolding carry_out request_approval run_directly
carry_out-IsSettled env out actor p = search run_rules depth 20

-- The checks change nothing but the audit log.
make_plan-IsSettled :
    (env : Env) (out : Outside) (actor : Actor) (name : String) (q : RunRequest) (key hash : String)
    → Keeps IsSettled (make_plan env out actor name q key hash)
unfolding make_plan
make_plan-IsSettled env out actor name q key hash = search run_rules depth 40

pub run_runbook-IsSettled :
    (env : Env) (out : Outside) (actor : Actor) (name header : String) (q : RunRequest)
    → Keeps IsSettled (run_runbook env out actor name header q)
unfolding run_runbook run_new replay_runbook_idempotency
run_runbook-IsSettled env out actor name header q =
    search (keeps_rules, unless_replayed-Keeps, make_plan-IsSettled, carry_out-IsSettled) depth 20

mark_denied-IsSettled :
    (env : Env) (actor : Actor) (id note : String) → Keeps IsSettled (mark env actor denied id note)
unfolding mark
mark_denied-IsSettled env actor id note = Keeps-bind _ _ (search keeps_rules) (λ n.
    Keeps-bind _ _
      (Keeps-modify _ (λ db h x. (
        (h x).0 ∙ sym (count-denied env actor note id x db.approvals),
        rw (count-has_id env actor note id denied x db.approvals) (h x).1,
      )))
      (λ u. search keeps_rules))

pub deny_request-IsSettled :
    (env : Env) (out : Outside) (actor : Actor) (id note : String)
    → Keeps IsSettled (deny_request env out actor id note)
unfolding deny_request undecided
deny_request-IsSettled env out actor id note =
    search (settled_rules, mark_denied-IsSettled) depth 30
