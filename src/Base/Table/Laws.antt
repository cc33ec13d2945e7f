-- ===== src/Base/Table/Laws.antt =====
-- What the statements do to rows that satisfy a property, and to the row that a query finds.
use mathlib.Core.Option
use vpstools.Base.{
  ◌≡◌, refl, ◌⊎◌, subst, Bool, true, false, some, List, [], ◌∷◌, ◌++◌, arith, if◌then◌else◌, inl,
  inr, Bool-cases, All, Pairwise, Has,
}
use vpstools.Base.Table.{find, update}

module _ {ℓ} {A : Type ℓ} where
  pub find-true : (p : A → Bool) (l : List A) (a : A) → find p l ≡ some a → p a ≡ true
  unfolding find
  find-true p [] a h = ground arith
  find-true p (x ∷ l) a h = elim (Bool-cases (p x)) [
    | inl hit ↦ ground arith
    | inr miss ↦ find-true p l a (ground arith)
  ]

  pub find-append :
      (p : A → Bool) (l m : List A) (a : A) → find p l ≡ some a → find p (l ++ m) ≡ some a
  unfolding find
  find-append p [] m a h = ground arith
  find-append p (x ∷ l) m a h = ground (arith, find-append p l m a)

  -- An update that keeps the test finds the updated row.
  pub find-update :
      (p : A → Bool) (f : A → A) (l : List A)
      → ((x : A) → p x ≡ true → p (f x) ≡ true)
      → find p (update p f l) ≡ Option.map f (find p l)
  unfolding find update
  find-update p f [] keep = refl
  find-update p f (x ∷ l) keep = elim (Bool-cases (p x)) [
    | inl hit ↦ rw (hit, keep x hit)
    | inr miss ↦ rw (miss, miss) (find-update p f l keep)
  ]

module _ {ℓ κ} {A : Type ℓ} (P : A → Type κ) where
  pub All-update :
      (p : A → Bool) (f : A → A) (l : List A)
      → ((x : A) → P x → p x ≡ true → P (f x))
      → All P l
      → All P (update p f l)
  unfolding update
  All-update p f [] keep h = tt
  All-update p f (x ∷ l) keep h = (changed (Bool-cases (p x)), All-update p f l keep h.1)
    where
      changed : ((p x ≡ true) ⊎ (p x ≡ false)) → P (if p x then f x else x)
      changed (inl hit) = rw hit (keep x h.0 hit)
      changed (inr miss) = rw miss h.0

  pub All-find : (p : A → Bool) (l : List A) (a : A) → All P l → find p l ≡ some a → P a
  unfolding find
  All-find p [] a h e = ground arith
  All-find p (x ∷ l) a h e = elim (Bool-cases (p x)) [
    | inl hit ↦ let same : x ≡ a = ground arith in subst P same h.0
    | inr miss ↦ All-find p l a h.1 (ground arith)
  ]

module _ {ℓ} {A : Type ℓ} (R : A → A → Type 0) where
  pub Pairwise-update :
      (p : A → Bool) (f : A → A) (l : List A)
      → ((x : A) → R x x)
      → ((x : A) → p x ≡ true → R x (f x))
      → Pairwise R l (update p f l)
  unfolding update
  Pairwise-update p f [] same changed = tt
  Pairwise-update p f (x ∷ l) same changed =
      (moved (Bool-cases (p x)), Pairwise-update p f l same changed)
    where
      moved : (p x ≡ true) ⊎ (p x ≡ false) → R x (if p x then f x else x)
      moved (inl hit) = rw hit (changed x hit)
      moved (inr miss) = rw miss (same x)

module _ {A : Type 0} where
  pub find-Has : (p : A → Bool) (l : List A) (a : A) → find p l ≡ some a → Has a l
  unfolding find
  find-Has p [] a h = cc h
  find-Has p (x ∷ l) a h = elim (Bool-cases (p x)) [
    | inl hit ↦ inl (ground arith)
    | inr miss ↦ inr (find-Has p l a (ground arith))
  ]
