-- ===== src/Audit/Chain.antt =====
-- The hash chain: what verification means, how a write extends it, and tampering.
use vpstools.Base.{ℕ, suc, ◌+◌, ◌≡◌, ◌≢◌, ◌↔◌, String, List, [], ◌∷◌, ◌++◌, arith, eq_iff, length}
use vpstools.Store.Rows.{Db, AuditInput, AuditEvent}
use vpstools.Store.Action.{ok}
use vpstools.Audit.{events_of, last_hash, verify_rows, verify_audit_hash_chain}

-- Each event carries the hash of its contents, and names the hash of the one before it.
abbrev pub IsChain : (AuditInput → String) → String → List AuditEvent → Type 0
IsChain hash previous [] = Unit {0}
IsChain hash previous (e ∷ l) =
    (e.input.previous_hash ≡ previous)
    × (e.event_hash ≢ "")
    × (e.event_hash ≡ hash e.input)
    × IsChain hash e.event_hash l

verify_rows_iff :
    (hash : AuditInput → String) (previous : String) (k n : ℕ) (l : List AuditEvent)
    → (verify_rows hash previous k l ≡ ok n) ↔ (IsChain hash previous l × (k + length l ≡ n))
unfolding verify_rows
verify_rows_iff hash previous k n [] = (λ h. ground arith, λ h. ground arith)
verify_rows_iff hash previous k n (e ∷ l) = (
  λ h. ground (
    arith,
    eq_iff e.input.previous_hash previous,
    eq_iff e.event_hash "",
    eq_iff e.event_hash (hash e.input),
    (verify_rows_iff hash e.event_hash (suc k) n l).0,
  ),
  λ h. ground (
    arith,
    eq_iff e.input.previous_hash previous,
    eq_iff e.event_hash "",
    eq_iff e.event_hash (hash e.input),
    (verify_rows_iff hash e.event_hash (suc k) n l).1,
  ),
)

-- Verification of an organisation succeeds with the count n exactly when its events, n in number,
-- in the order of their times form a chain: each names the hash of the one before it (the first the
-- empty text) and carries the hash of its own contents, which is not empty.
pub verify_audit_hash_chain_iff :
    (hash : AuditInput → String) (org : String) (n : ℕ) (db : Db)
    → (verify_audit_hash_chain hash org db ≡ ok n)
      ↔ (IsChain hash "" (events_of org db.audit) × (length (events_of org db.audit) ≡ n))
unfolding verify_audit_hash_chain
verify_audit_hash_chain_iff hash org n db =
    let both = verify_rows_iff hash "" 0 n (events_of org db.audit) in
    (λ h. let c = both.0 h in (c.0, omega (arith, c.1)), λ h. both.1 (h.0, omega (arith, h.1)))

pub verify-events :
    (hash : AuditInput → String) (org : String) (a b : Db)
    → events_of org a.audit ≡ events_of org b.audit
    → verify_audit_hash_chain hash org a ≡ verify_audit_hash_chain hash org b
unfolding verify_audit_hash_chain
verify-events hash org a b same = rw same

pub IsChain-append :
    (hash : AuditInput → String) (previous : String) (l : List AuditEvent) (e : AuditEvent)
    → IsChain hash previous l
    → e.input.previous_hash ≡ last_hash previous l
    → e.event_hash ≢ ""
    → e.event_hash ≡ hash e.input
    → IsChain hash previous (l ++ e ∷ [])
unfolding last_hash
IsChain-append hash previous [] e c p n h = (p, n, h, tt)
IsChain-append hash previous (x ∷ l) e c p n h =
    (c.0, c.1, c.2, IsChain-append hash x.event_hash l e c.3 p n h)

-- Two different contents with one hash.
abbrev pub Collision : (AuditInput → String) → Type 0
Collision hash = (a : AuditInput) × (b : AuditInput) × (a ≢ b) × (hash a ≡ hash b)
