-- ===== src/Approvals/Granted.antt =====
-- What an approval needs and does (apps/api/runbooks.go).
use vpstools.Base.{
  ◌≡◌, ◌≢◌, refl, sym, subst, ◌∙◌, ap, String, true, false, Option, some, List, [], ◌∷◌, ◌++◌, map,
  arith, ◌==◌, eqb, append_assoc, append-nil,
}
use vpstools.Base.Table.{update, count}
use vpstools.Store.Status.{Status}
use vpstools.Store.Catalogue.{ApprovalRequest, Intent, approved}
use vpstools.Store.Rows.{Db, Execution, Target, Metadata}
use vpstools.Store.Action.{Env, ok, modify, ◌>>=◌}
use vpstools.Store.Keeps.{Keeps, Keeps-modify, keeps_rules}
use vpstools.Store.Ends.{Ends, Ends-then, Ends-modify, Ends-transaction}
use vpstools.Store.Paths.{
  past_refuse, past_or_raise, past_gets, end_pure, Ends-on_error, Ends-kept_to, Ends-some,
  Ends-knowing, past_when,
}
use vpstools.Authz.{Actor, is_senior}
use vpstools.Audit.{write_audit_event_type, write_audit_event_tx, record_execution_event}
use vpstools.Runners.Denial.{past_denial}
use vpstools.Runners.Reply.{Reply}
use vpstools.Executions.Create.{insert_targets, new_target}
use vpstools.Approvals.Request.{Outside}
use vpstools.Approvals.Decide.{
  is_undecided, decide, find_request, mark, undecided, approved_execution,
  create_execution_from_approval, approve_tx, approve,
}

-- The tables that an approval is about.
abbrev pub Frame : List Execution → List Target → List ApprovalRequest → Db → Type 0
Frame executions targets approvals db =
    (db.executions ≡ executions) × (db.targets ≡ targets) × (db.approvals ≡ approvals)

module _ (env : Env) (es : List Execution) (ts : List Target) (qs : List ApprovalRequest) where
  pub logged :
      {E : Type 0} (f : Db → Db)
      → ((db : Db) → Frame es ts qs db → Frame es ts qs (f db))
      → Keeps {E = E} (Frame es ts qs) (modify f)
  logged f h = Keeps-modify f h

  pub event_kept :
      (org execution target : String) (from : Option Status) (to : Status) (event : String)
      (metadata : Metadata)
      → Keeps
          (Frame es ts qs)
          (record_execution_event env org execution target from to event metadata)
  unfolding record_execution_event
  event_kept org execution target from to event metadata = search (keeps_rules, logged)

  pub audit_kept :
      (org user action target_type target result : String) (metadata : Metadata)
      → Keeps
          (Frame es ts qs)
          (write_audit_event_tx env org user action target_type target result metadata)
  unfolding write_audit_event_tx write_audit_event_type
  audit_kept org user action target_type target result metadata = search (keeps_rules, logged)

pub insert_targets-adds :
    (env : Env) (es : List Execution) (ts : List Target) (qs : List ApprovalRequest) (org : String)
    (ids : List String)
    → Ends
        (Frame es ts qs)
        (insert_targets env org ids)
        (λ u. Frame es (ts ++ map (new_target env org) ids) qs)
unfolding insert_targets
insert_targets-adds env es ts qs org [] =
    end_pure tt (λ db h. (h.0, h.1 ∙ sym (append-nil ts), h.2))
insert_targets-adds env es ts qs org (id ∷ ids) = past_refuse _ _ _ (λ fine.
    Ends-then _ _
      (Ends-modify {Q = Frame es (ts ++ new_target env org id ∷ []) qs} _
        (λ db h. (h.0, ap (λ l. l ++ new_target env org id ∷ []) h.1, h.2)))
      (λ u. record {
        run = λ db h v e.
            let r =
              (insert_targets-adds env es (ts ++ new_target env org id ∷ []) qs org ids).run db h v
                e in
            (r.0, r.1 ∙ append_assoc ts (new_target env org id ∷ []) _, r.2);
      }))

module _ (env : Env) (out : Outside) (actor : Actor) (id note : String) where
  creates :
      (es : List Execution) (ts : List Target) (qs : List ApprovalRequest) (a : ApprovalRequest)
      → Ends (Frame es ts qs) (create_execution_from_approval env out actor id a) (λ u db.
        (i : Intent) × (a.request_payload ≡ some i)
        × Frame
            (es ++ approved_execution env out actor id a i ∷ [])
            (ts ++ map (new_target env actor.organisation_id) i.target_ids)
            qs
            db)
  unfolding create_execution_from_approval
  creates es ts qs a = past_or_raise _ _ _ (λ i known. past_refuse _ _ _ (λ given.
      past_refuse _ _ _ (λ fine.
        Ends-then _ _
          (Ends-modify {Q = Frame (es ++ approved_execution env out actor id a i ∷ []) ts qs} _
            (λ db h. (ap (λ l. l ++ approved_execution env out actor id a i ∷ []) h.0, h.1, h.2)))
          (λ u. Ends-then _ _ (Ends-on_error _ _ (insert_targets-adds env _ _ _ _ _)) (λ v.
            Ends-kept_to _ (search (keeps_rules, event_kept, audit_kept))
              (λ db h. (i, known, h)))))))

  marks :
      (before : Db)
      → Ends
          (λ db. db ≡ before)
          (mark env actor approved id note)
          (λ n. λ db.
            (n ≡ count (is_undecided id actor.organisation_id env.now) before.approvals)
            × Frame before.executions before.targets
                (update
                  (is_undecided id actor.organisation_id env.now)
                  (decide env actor approved note)
                  before.approvals)
                db)
  unfolding mark ◌>>=◌
  marks before = record {
    run = λ db h n e.
        let counted : count (is_undecided id actor.organisation_id env.now) db.approvals ≡ n =
          cc e in
        (
          sym counted
              ∙ ap (λ d. count (is_undecided id actor.organisation_id env.now) d.approvals) h,
          (
            ap (λ d. d.executions) h,
            ap (λ d. d.targets) h,
            ap
                (λ d.
                  update (is_undecided id actor.organisation_id env.now)
                    (decide env actor approved note) d.approvals)
                h,
          ),
        );
  }

  -- What was found and holds of it, and what changed.
  abbrev pub Granted : Db → Db → Type 0
  Granted before after =
      (a : ApprovalRequest) × (role : String) × (i : Intent) × (find_request id
          actor.organisation_id before
        ≡ some (a, role))
      × (is_senior actor ≡ true)
      × ((a.requester_user_id == actor.user_id) ≡ false)
      × (eqb (count (is_undecided id actor.organisation_id env.now) before.approvals) 0 ≡ false)
      × (a.request_payload ≡ some i)
      × (after.executions ≡ before.executions ++ approved_execution env out actor id a i ∷ [])
      × (after.targets ≡ before.targets ++ map (new_target env actor.organisation_id) i.target_ids)
      × (after.approvals
          ≡ update (is_undecided id actor.organisation_id env.now) (decide env actor approved note)
              before.approvals)

  undecided-fails :
      (message : String) (db : Db) (u : Unit {0}) → (undecided env actor id message db).0 ≢ ok u
  unfolding undecided ◌>>=◌
  undecided-fails message db u e = ground arith

  abbrev marked : Db → List ApprovalRequest
  marked before =
      update (is_undecided id actor.organisation_id env.now) (decide env actor approved note)
        before.approvals

  -- The transaction, for the request that was found.
  approve_tx-Granted :
      (before : Db) (a : ApprovalRequest) (role : String)
      → find_request id actor.organisation_id before ≡ some (a, role)
      → is_senior actor ≡ true
      → (a.requester_user_id == actor.user_id) ≡ false
      → Ends (λ db. db ≡ before) (approve_tx env out actor id note a) (λ r. Granted before)
  unfolding approve_tx
  approve_tx-Granted before a role is_found senior another = past_refuse _ _ _ (λ fine.
      Ends-then _ _ (marks before) (λ n.
        Ends-knowing {R = Frame before.executions before.targets (marked before)} _
          (λ db h. (h.0, h.1))
          (λ counted. past_refuse _ _ _ (λ inspected.
            past_when _ _ _ (undecided-fails _) (λ some_row.
              Ends-then _ _ (creates before.executions before.targets (marked before) a) (λ u.
                Ends-some _ (λ i known. Ends-kept_to _ (search (keeps_rules, audit_kept)) (λ db h. (
                  a,
                  role,
                  i,
                  is_found,
                  senior,
                  another,
                  ap (λ k. eqb k 0) (sym counted) ∙ some_row,
                  known,
                  h.0,
                  h.1,
                  h.2,
                )))))))))

  approve-Granted :
      (before : Db) → Ends (λ db. db ≡ before) (approve env out actor id note) (λ r. Granted before)
  unfolding approve
  approve-Granted before = past_denial _ _ _ _ _ _ _ _ (λ senior. past_refuse _ _ _ (λ fine.
      past_gets _ _ (λ found. past_or_raise _ _ _ (λ (a, role) is_found.
        Ends-knowing {R = λ db. db ≡ before} _
          (λ db h.
            (subst (λ d. find_request id actor.organisation_id d ≡ found) h.0 h.1 ∙ is_found, h.0))
          (λ here. past_refuse _ _ _ (λ another. past_refuse _ _ _ (λ dated.
            past_refuse _ _ _ (λ started.
              Ends-transaction _
                (approve_tx-Granted before a role here (ground (arith, senior)) another)))))))))

  -- An approval that succeeds: the actor is senior and is not who asked, the request was found in
  -- the actor's organisation with its requester an active member, and was pending and not expired. One execution
  -- is added, with the command, the targets and the environment of the request's payload, in the name of
  -- the requester, and one target for each server; the open request, and no other, is marked as
  -- approved by the actor.
  pub approval-Granted :
      (db : Db) (r : Reply)
      → (approve env out actor id note db).0 ≡ ok r
      → Granted db (approve env out actor id note db).1
  approval-Granted db r h = (approve-Granted db).run db refl r h
