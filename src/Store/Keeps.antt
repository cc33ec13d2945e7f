-- ===== src/Store/Keeps.antt =====
-- Actions that keep a property of the tables, whether they succeed or fail: one rule for each way to
-- build an action.
use vpstools.Base.{Bool, true, false, Option, none, some, if◌then◌else◌}
use vpstools.Store.Rows.{Db}
use vpstools.Store.Action.{
  Result, ok, err, Action, pure, raise, gets, or_raise, modify, refuse_if, continue, ◌>>=◌,
  on_error, when, settle, transaction,
}

pub record Keeps {E A : Type 0} (P : Db → Type 0) (m : Action E A) : Type 0 where
  pub run : (db : Db) → P db → P (m db).1

module _ {E A : Type 0} {P : Db → Type 0} where
  pub Keeps-pure : (a : A) → Keeps {E = E} P (pure a)
  unfolding pure
  Keeps-pure a = record { run = λ db h. h }

  pub Keeps-raise : (e : E) → Keeps {A = A} P (raise e)
  unfolding raise
  Keeps-raise e = record { run = λ db h. h }

  pub Keeps-gets : (f : Db → A) → Keeps {E = E} P (gets f)
  unfolding gets
  Keeps-gets f = record { run = λ db h. h }

  pub Keeps-or_raise : (o : Option A) (e : E) → Keeps P (or_raise o e)
  unfolding or_raise
  Keeps-or_raise none e = record { run = λ db h. h }
  Keeps-or_raise (some a) e = record { run = λ db h. h }

  pub Keeps-if :
      (b : Bool) (m n : Action E A) → Keeps P m → Keeps P n → Keeps P (if b then m else n)
  Keeps-if true m n km kn = km
  Keeps-if false m n km kn = kn

  pub Keeps-transaction : (m : Action E A) → Keeps P m → Keeps P (transaction m)
  unfolding transaction
  Keeps-transaction m km = record { run = λ db h. settled (m db).0 db (m db).1 h (km.run db h) }
    where
      settled : (r : Result E A) (a b : Db) → P a → P b → P (settle a r b).1
      settled (ok x) a b ha hb = hb
      settled (err e) a b ha hb = ha

module _ {E : Type 0} {P : Db → Type 0} where
  pub Keeps-modify : (f : Db → Db) → ((db : Db) → P db → P (f db)) → Keeps {E = E} P (modify f)
  unfolding modify
  Keeps-modify f h = record { run = h }

  pub Keeps-refuse_if : (b : Bool) (e : E) → Keeps P (refuse_if b e)
  unfolding refuse_if
  Keeps-refuse_if true e = record { run = λ db h. h }
  Keeps-refuse_if false e = record { run = λ db h. h }

  pub Keeps-when : (b : Bool) (m : Action E (Unit {0})) → Keeps P m → Keeps P (when b m)
  unfolding when
  Keeps-when true m km = record { run = km.run }
  Keeps-when false m km = record { run = λ db h. h }

module _ {E A B : Type 0} {P : Db → Type 0} where
  pub Keeps-bind :
      (m : Action E A) (f : A → Action E B)
      → Keeps P m
      → ((a : A) → Keeps P (f a))
      → Keeps P (m >>= f)
  unfolding ◌>>=◌
  Keeps-bind m f km kf = record { run = λ db h. go (m db).0 (m db).1 (km.run db h) }
    where
      go : (r : Result E A) (db : Db) → P db → P (continue f r db).1
      go (ok a) db h = (kf a).run db h
      go (err e) db h = h

module _ {E F A : Type 0} {P : Db → Type 0} where
  pub Keeps-on_error : (f : E → F) (m : Action E A) → Keeps P m → Keeps P (on_error f m)
  unfolding on_error
  Keeps-on_error f m km = record { run = km.run }

pub ruleset keeps_rules = (
  Keeps-pure, Keeps-raise, Keeps-gets, Keeps-or_raise, Keeps-if, Keeps-transaction, Keeps-refuse_if,
  Keeps-when, Keeps-bind, Keeps-on_error,
)
