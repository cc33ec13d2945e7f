-- ===== src/Audit/Sort.antt =====
-- Sorting the audit events, with an event later than all others.
use vpstools.Base.{
  ℕ, ◌<◌, ◌≡◌, refl, ◌∙◌, ap, String, Bool, true, false, List, [], ◌∷◌, ◌++◌, arith, ◌==◌, eq_iff,
  append-nil, All, if◌then◌else◌,
}
use vpstools.Base.Table.{select}
use vpstools.Store.Rows.{AuditEvent}
use vpstools.Audit.{before, insert, order, events_of}

-- Every event of the list is earlier than time `t`.
abbrev pub Earlier : ℕ → List AuditEvent → Type 0
Earlier t = All (λ x. x.input.occurred_at < t)

Earlier-insert :
    (t : ℕ) (x : AuditEvent) (l : List AuditEvent)
    → x.input.occurred_at < t
    → Earlier t l
    → Earlier t (insert x l)
unfolding insert
Earlier-insert t x [] b h = (b, tt)
Earlier-insert t x (y ∷ l) b h = ground (arith, Earlier-insert t x l b h.1)

Earlier-order : (t : ℕ) (l : List AuditEvent) → Earlier t l → Earlier t (order l)
unfolding order
Earlier-order t [] h = tt
Earlier-order t (x ∷ l) h = Earlier-insert t x (order l) h.0 (Earlier-order t l h.1)

-- A later event stays last when another is inserted before it.
insert-append :
    (x e : AuditEvent) (l : List AuditEvent)
    → x.input.occurred_at < e.input.occurred_at
    → insert x (l ++ e ∷ []) ≡ insert x l ++ e ∷ []
unfolding insert before
insert-append x e [] h = ground arith
insert-append x e (y ∷ l) h = ground (arith, insert-append x e l h)

insert_last :
    (e : AuditEvent) (l : List AuditEvent)
    → Earlier e.input.occurred_at l
    → insert e l ≡ l ++ e ∷ []
unfolding insert before
insert_last e [] h = refl
insert_last e (y ∷ l) h = ground (arith, insert_last e l h.1)

order-append :
    (e : AuditEvent) (l : List AuditEvent)
    → Earlier e.input.occurred_at l
    → order (l ++ e ∷ []) ≡ order l ++ e ∷ []
unfolding order insert
order-append e [] h = refl
order-append e (x ∷ l) h = ap (insert x) (order-append e l h.1) ∙ insert-append x e (order l) h.0

select-append :
    (p : AuditEvent → Bool) (l : List AuditEvent) (e : AuditEvent)
    → select p (l ++ e ∷ []) ≡ select p l ++ (if p e then e ∷ [] else [])
unfolding select
select-append p [] e = ground arith
select-append p (x ∷ l) e = ground (arith, select-append p l e)

-- An event of the organisation that is later than its others comes last in the order.
pub events_of-append :
    (org : String) (e : AuditEvent) (l : List AuditEvent)
    → e.input.organisation_id ≡ org
    → Earlier e.input.occurred_at (select (λ x. x.input.organisation_id == org) l)
    → events_of org (l ++ e ∷ []) ≡ events_of org l ++ e ∷ []
unfolding events_of
events_of-append org e l own late =
    let mine : (e.input.organisation_id == org) ≡ true =
      (eq_iff e.input.organisation_id org).1 own in
    rw (select-append (λ x. x.input.organisation_id == org) l e, mine)
      (order-append e (select (λ x. x.input.organisation_id == org) l) late)

-- The events of the other organisations are left as they were.
pub events_of-other :
    (org : String) (e : AuditEvent) (l : List AuditEvent)
    → (e.input.organisation_id == org) ≡ false
    → events_of org (l ++ e ∷ []) ≡ events_of org l
unfolding events_of
events_of-other org e l other =
    rw (select-append (λ x. x.input.organisation_id == org) l e, other)
      (ap order (append-nil (select (λ x. x.input.organisation_id == org) l)))
