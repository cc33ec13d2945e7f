-- ===== src/Store/Ends.antt =====
-- What holds when an action succeeds: the tables satisfy `P` until a last step establishes `Q`.
use vpstools.Base.{refl, Bool, true, false, ◌≡◌, if◌then◌else◌, arith}
use vpstools.Store.Rows.{Db}
use vpstools.Store.Action.{Result, ok, err, Action, continue, modify, ◌>>=◌, settle, transaction}
use vpstools.Store.Keeps.{Keeps}

pub record Ends {E A : Type 0} (P : Db → Type 0) (m : Action E A) (Q : A → Db → Type 0)
    : Type 0 where
  pub run : (db : Db) → P db → (a : A) → (m db).0 ≡ ok a → Q a (m db).1

module _ {E A : Type 0} {P : Db → Type 0} {Q : A → Db → Type 0} where
  pub Ends-if :
      (b : Bool) (m n : Action E A) → Ends P m Q → Ends P n Q → Ends P (if b then m else n) Q
  Ends-if true m n em en = em
  Ends-if false m n em en = en

  pub Ends-transaction : (m : Action E A) → Ends P m Q → Ends P (transaction m) Q
  unfolding transaction
  Ends-transaction m em = record {
    run = λ db h a e. settled db (m db).1 (m db).0 a e (em.run db h a);
  }
    where
      settled :
          (before after : Db) (r : Result E A) (a : A)
          → (settle before r after).0 ≡ ok a
          → (r ≡ ok a → Q a after)
          → Q a (settle before r after).1
      settled before after (ok x) a e reached = reached e
      settled before after (err x) a e reached = ground arith

module _ {E A B : Type 0} {P : Db → Type 0} {Q : B → Db → Type 0} where
  pub Ends-bind :
      (m : Action E A) (f : A → Action E B)
      → Keeps P m
      → ((a : A) → Ends P (f a) Q)
      → Ends P (m >>= f) Q
  unfolding ◌>>=◌
  Ends-bind m f km ef = record { run = λ db h. go (m db).0 (m db).1 (km.run db h) }
    where
      go :
          (r : Result E A) (db : Db)
          → P db
          → (b : B) → (continue f r db).0 ≡ ok b
          → Q b (continue f r db).1
      go (ok a) db h b e' = (ef a).run db h b e'
      go (err e) db h b e' = ground arith

-- The rules for steps that each lead on from what the one before has established.
module _ {E A B : Type 0} {P : Db → Type 0} {R : A → Db → Type 0} {Q : B → Db → Type 0} where
  pub Ends-then :
      (m : Action E A) (f : A → Action E B)
      → Ends P m R
      → ((a : A) → Ends (R a) (f a) Q)
      → Ends P (m >>= f) Q
  unfolding ◌>>=◌
  Ends-then m f em ef = record { run = λ db h. go (m db).0 (m db).1 (em.run db h) }
    where
      go :
          (r : Result E A) (db : Db)
          → ((a : A) → r ≡ ok a → R a db)
          → (b : B) → (continue f r db).0 ≡ ok b
          → Q b (continue f r db).1
      go (ok a) db h b e = (ef a).run db (h a refl) b e
      go (err x) db h b e = ground arith

module _ {E A : Type 0} {P : Db → Type 0} where
  pub Ends-kept : (m : Action E A) → Keeps P m → Ends P m (λ a. P)
  Ends-kept m km = record { run = λ db h a e. km.run db h }

module _ {E : Type 0} {P Q : Db → Type 0} where
  pub Ends-modify :
      (f : Db → Db) → ((db : Db) → P db → Q (f db)) → Ends {E = E} P (modify f) (λ u. Q)
  unfolding modify
  Ends-modify f h = record { run = λ db p a e. h db p }

module _ {E A : Type 0} {P : Db → Type 0} where
  -- What every success of a transaction keeps it keeps, since a failure changes nothing.
  pub Keeps-transaction_of_Ends : (m : Action E A) → Ends P m (λ a. P) → Keeps P (transaction m)
  unfolding transaction
  Keeps-transaction_of_Ends m em = record {
    run = λ db h. settled db (m db).1 (m db).0 h (em.run db h);
  }
    where
      settled :
          (before after : Db) (r : Result E A)
          → P before
          → ((a : A) → r ≡ ok a → P after)
          → P (settle before r after).1
      settled before after (ok x) h reached = reached x refl
      settled before after (err x) h reached = h

pub ruleset ends_rules = (Ends-if, Ends-transaction, Ends-bind)
