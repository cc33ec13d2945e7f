-- ===== src/Store/Fails.antt =====
-- What an action keeps when it fails: reads before a transaction, and the transaction.
use vpstools.Base.{◌≡◌, arith}
use vpstools.Store.Rows.{Db}
use vpstools.Store.Action.{Result, ok, err, Action, continue, ◌>>=◌, settle, transaction}
use vpstools.Store.Keeps.{Keeps}

pub record Fails {E A : Type 0} (P : Db → Type 0) (m : Action E A) : Type 0 where
  pub run : (db : Db) → P db → (e : E) → (m db).0 ≡ err e → P (m db).1

module _ {E A : Type 0} {P : Db → Type 0} where
  pub Fails-transaction : (m : Action E A) → Fails P (transaction m)
  unfolding transaction
  Fails-transaction m = record { run = λ db h e f. settled db (m db).1 (m db).0 e f h }
    where
      settled :
          (before after : Db) (r : Result E A) (e : E)
          → (settle before r after).0 ≡ err e
          → P before
          → P (settle before r after).1
      settled before after (err x) e f h = h
      settled before after (ok x) e f h = ground arith

module _ {E A B : Type 0} {P : Db → Type 0} where
  pub Fails-bind :
      (m : Action E A) (f : A → Action E B)
      → Keeps P m
      → ((a : A) → Fails P (f a))
      → Fails P (m >>= f)
  unfolding ◌>>=◌
  Fails-bind m f km ff = record { run = λ db h. go (m db).0 (m db).1 (km.run db h) }
    where
      go :
          (r : Result E A) (db : Db)
          → P db
          → (e : E) → (continue f r db).0 ≡ err e
          → P (continue f r db).1
      go (ok a) db h e g = (ff a).run db h e g
      go (err x) db h e g = h

pub ruleset fails_rules = (Fails-transaction, Fails-bind)
