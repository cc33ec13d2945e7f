-- ===== src/Store/Action.antt =====
-- What a handler may do: read and change the tables, and fail with an error. What was written before
-- an error stays written, unless the action runs in a transaction.
use vpstools.Base.{ℕ, ◌≡◌, ◌⊎◌, inl, inr, refl, String, Bool, true, false, Option, none, some}
use vpstools.Store.Rows.{Db, AuditInput}

pub data Result {ℓ} (E A : Type ℓ) : Type ℓ where
  ok : A → Result E A
  err : E → Result E A

abbrev pub Action : Type 0 → Type 0 → Type 0
Action E A = Db → Result E A × Db

-- The outside: the clock (seconds), which statements the database refuses to run, by the message or
-- event that the code attaches to them, the identifiers that `shortID` and `newToken` draw for each
-- use, and SHA-256 over a JSON encoding (`hashPayload`, `hashToken`, `auditEventHash`).
pub record Env : Type 0 where
  pub now : ℕ
  pub fails : String → Bool
  pub fresh : String → String
  pub hash_token : String → String
  pub hash_audit : AuditInput → String

pub Result-cases {ℓ} :
    {E A : Type ℓ} (r : Result E A) → ((a : A) × (r ≡ ok a)) ⊎ ((e : E) × (r ≡ err e))
Result-cases (ok a) = inl (a, refl)
Result-cases (err e) = inr (e, refl)

module _ {E A : Type 0} where
  unfoldable pub pure : A → Action E A
  pure a db = (ok a, db)

  unfoldable pub raise : E → Action E A
  raise e db = (err e, db)

  unfoldable pub gets : (Db → A) → Action E A
  gets f db = (ok (f db), db)

  unfoldable pub or_raise : Option A → E → Action E A
  or_raise none e db = (err e, db)
  or_raise (some a) e db = (ok a, db)

module _ {E : Type 0} where
  unfoldable pub modify : (Db → Db) → Action E (Unit {0})
  modify f db = (ok tt, f db)

  -- `if test { return the error }`
  unfoldable pub refuse_if : Bool → E → Action E (Unit {0})
  refuse_if true e db = (err e, db)
  refuse_if false e db = (ok tt, db)

module _ {E F A : Type 0} where
  abbrev pub with_error : (E → F) → Result E A → Result F A
  with_error f (ok a) = ok a
  with_error f (err e) = err (f e)

  -- Run an action whose errors the caller reports in its own way.
  unfoldable pub on_error : (E → F) → Action E A → Action F A
  on_error f m db = let (r, db') = m db in (with_error f r, db')

module _ {E : Type 0} where
  -- `if test { action }`
  unfoldable pub when : Bool → Action E (Unit {0}) → Action E (Unit {0})
  when true m db = m db
  when false m db = (ok tt, db)

module _ {E A : Type 0} where
  abbrev pub settle : Db → Result E A → Db → Result E A × Db
  settle before (ok a) after = (ok a, after)
  settle before (err e) after = (err e, before)

  -- A database transaction: an error rolls every change back.
  unfoldable pub transaction : Action E A → Action E A
  transaction m db = let (r, db') = m db in settle db r db'

module _ {E A B : Type 0} where
  abbrev pub continue : (A → Action E B) → Result E A → Action E B
  continue f (ok a) db = f a db
  continue f (err e) db = (err e, db)

  infixl 5 ◌>>=◌ ◌>>◌
  -- Opening this opens the actions above.
  unfoldable pub ◌>>=◌ : Action E A → (A → Action E B) → Action E B
  unfolding pure raise gets or_raise modify refuse_if on_error when transaction
  ◌>>=◌ m f db = let (r, db') = m db in continue f r db'

  abbrev pub ◌>>◌ : Action E A → Action E B → Action E B
  m >> n = m >>= λ _. n
