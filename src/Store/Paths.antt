-- ===== src/Store/Paths.antt =====
-- What holds when an action succeeds, followed along its path: each rule passes one step and gives what
-- is known because the step did not fail.
use vpstools.Base.{◌≡◌, ◌≢◌, refl, sym, subst, Bool, true, false, Option, none, some, if◌then◌else◌}
use vpstools.Store.Rows.{Db}
use vpstools.Store.Action.{
  Action, ok, err, pure, gets, or_raise, refuse_if, on_error, with_error, Result, when, continue,
  ◌>>=◌, ◌>>◌,
}
use vpstools.Store.Keeps.{Keeps}
use vpstools.Store.Ends.{Ends}

module _ {E B : Type 0} {P : Db → Type 0} {Q : B → Db → Type 0} where
  pub past_refuse :
      (b : Bool) (e : E) (k : Action E B) → (b ≡ false → Ends P k Q) → Ends P (refuse_if b e >> k) Q
  unfolding ◌>>=◌
  past_refuse true e k h = record { run = λ db p a f. cc f }
  past_refuse false e k h = record { run = (h refl).run }

  pub end_pure : (b : B) → ((db : Db) → P db → Q b db) → Ends {E = E} P (pure b) Q
  unfolding pure
  end_pure b h = record {
    run = λ db p a f. let same : b ≡ a = cc f in subst (λ x. Q x db) same (h db p);
  }

module _ {E B : Type 0} {P : Db → Type 0} {Q : B → Db → Type 0} where
  -- A branch that never succeeds has not been taken.
  pub past_when :
      (b : Bool) (m : Action E (Unit {0})) (k : Action E B)
      → ((db : Db) (u : Unit {0}) → (m db).0 ≢ ok u)
      → (b ≡ false → Ends P k Q)
      → Ends P (when b m >> k) Q
  unfolding ◌>>=◌
  past_when false m k never h = record { run = (h refl).run }
  past_when true m k never h = record { run = λ db p a f. fails db (m db).0 refl a f }
    where
      fails :
          (db : Db) (r : Result E (Unit {0}))
          → (m db).0 ≡ r
          → (a : B) → (continue (λ u. k) r (m db).1).0 ≡ ok a
          → Q a (continue (λ u. k) r (m db).1).1
      fails db (ok u) e a f = absurd (never db u e)
      fails db (err x) e a f = cc f

module _ {E A B : Type 0} {P : Db → Type 0} {Q : B → Db → Type 0} where
  pub past_or_raise :
      (o : Option A) (e : E) (k : A → Action E B)
      → ((a : A) → o ≡ some a → Ends P (k a) Q)
      → Ends P (or_raise o e >>= k) Q
  unfolding ◌>>=◌
  past_or_raise none e k h = record { run = λ db p a f. cc f }
  past_or_raise (some a) e k h = record { run = (h a refl).run }

  pub past_given :
      (a : A) (e : E) (k : A → Action E B) → Ends P (k a) Q → Ends P (or_raise (some a) e >>= k) Q
  unfolding ◌>>=◌
  past_given a e k h = record { run = h.run }

  pub past_gets :
      (f : Db → A) (k : A → Action E B)
      → ((a : A) → Ends (λ db. P db × (f db ≡ a)) (k a) Q)
      → Ends P (gets f >>= k) Q
  unfolding ◌>>=◌
  past_gets f k h = record { run = λ db p. (h (f db)).run db (p, refl) }

module _ {E F A : Type 0} {P : Db → Type 0} {Q : A → Db → Type 0} where
  pub Ends-on_error : (f : E → F) (m : Action E A) → Ends P m Q → Ends P (on_error f m) Q
  unfolding on_error
  Ends-on_error f m em = record { run = λ db p a e. em.run db p a (succeeded (m db).0 a e) }
    where
      succeeded : (r : Result E A) (a : A) → with_error f r ≡ ok a → r ≡ ok a
      succeeded (ok x) a e = cc e
      succeeded (err x) a e = cc e

module _ {E A : Type 0} {P R : Db → Type 0} {Q : A → Db → Type 0} where
  pub Ends-from : (m : Action E A) → ((db : Db) → P db → R db) → Ends R m Q → Ends P m Q
  Ends-from m f em = record { run = λ db p. em.run db (f db p) }

module _ {E A : Type 0} {P Q : Db → Type 0} where
  pub Ends-kept_to : (m : Action E A) → Keeps P m → ((db : Db) → P db → Q db) → Ends P m (λ a. Q)
  Ends-kept_to m km f = record { run = λ db p a e. f (m db).1 (km.run db p) }

module _ {E A : Type 0} {P R : Db → Type 0} {Q : A → Db → Type 0} {F : Type 0} where
  -- A fact that does not depend on the tables is taken out.
  pub Ends-knowing :
      (m : Action E A) → ((db : Db) → P db → F × R db) → (F → Ends R m Q) → Ends P m Q
  Ends-knowing m f em = record {
    run = λ db p a e. let (fact, rest) = f db p in (em fact).run db rest a e;
  }

module _ {E A I : Type 0} {C : I → Type 0} {R : I → Db → Type 0} {Q : A → Db → Type 0} where
  pub Ends-some :
      (m : Action E A) → ((i : I) → C i → Ends (R i) m Q) → Ends (λ db. (i : I) × C i × R i db) m Q
  Ends-some m em = record { run = λ db (i, c, r). (em i c).run db r }

module _ {E A B : Type 0} {before : Db} {Q : B → Db → Type 0} where
  -- A read of tables that are known.
  pub past_read :
      (f : Db → A) (k : A → Action E B)
      → Ends (λ db. db ≡ before) (k (f before)) Q
      → Ends (λ db. db ≡ before) (gets f >>= k) Q
  unfolding ◌>>=◌
  past_read f k h = record {
    run = λ db p.
        subst (λ d. (b : B) → (k (f d) db).0 ≡ ok b → Q b (k (f d) db).1) (sym p) (h.run db p);
  }

module _ {E A : Type 0} {P : Db → Type 0} {Q : A → Db → Type 0} where
  pub past_if :
      (b : Bool) (m n : Action E A)
      → (b ≡ true → Ends P m Q)
      → (b ≡ false → Ends P n Q)
      → Ends P (if b then m else n) Q
  past_if true m n hm hn = hm refl
  past_if false m n hm hn = hn refl

module _ {E A : Type 0} {P : Db → Type 0} {Q : A → Db → Type 0} where
  pub end_or_raise :
      (o : Option A) (e : E)
      → ((a : A) → o ≡ some a → (db : Db) → P db → Q a db)
      → Ends P (or_raise o e) Q
  unfolding or_raise
  end_or_raise none e h = record { run = λ db p a f. cc f }
  end_or_raise (some x) e h = record {
    run = λ db p a f. let same : x ≡ a = cc f in subst (λ y. Q y db) same (h x refl db p);
  }
