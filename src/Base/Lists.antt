-- ===== src/Base/Lists.antt =====
-- Lists measured by native numbers, searched and tested, under the library's names where it has them.
use Prim.Native.Nat.{ℕ, suc, ◌+◌}
use mathlib.Core.Path.{◌≡◌, refl, subst}
use mathlib.Core.Logic.{◌⊎◌, inl, inr}
use mathlib.Core.Bool.{Bool, true, false, ◌&&◌, ◌||◌}
use mathlib.Core.List.{List, [], ◌∷◌, ◌++◌}
use native.Mathlib.Omega.{arith}

module _ {ℓ} {A : Type ℓ} where
  abbrev pub length : List A → ℕ
  length [] = 0
  length (x ∷ xs) = suc (length xs)

  abbrev pub any : (A → Bool) → List A → Bool
  any p [] = false
  any p (x ∷ xs) = p x || any p xs

  abbrev pub all : (A → Bool) → List A → Bool
  all p [] = true
  all p (x ∷ xs) = p x && all p xs

  pub length-append : (xs ys : List A) → length (xs ++ ys) ≡ length xs + length ys
  length-append [] ys = omega arith
  length-append (x ∷ xs) ys = omega (arith, length-append xs ys)

module _ {ℓ κ} {A : Type ℓ} (P : A → Type κ) where
  -- `P` holds of every item.
  abbrev pub All : List A → Type κ
  All [] = Unit
  All (x ∷ xs) = P x × All xs

  pub All-append : (xs ys : List A) → All xs → All ys → All (xs ++ ys)
  All-append [] ys hx hy = hy
  All-append (x ∷ xs) ys hx hy = (hx.0, All-append xs ys hx.1 hy)

module _ {ℓ κ μ} {A : Type ℓ} (P : A → Type κ) (Q : A → Type μ) where
  pub All-weaken : (l : List A) → ((a : A) → P a → Q a) → All P l → All Q l
  All-weaken [] f h = tt
  All-weaken (x ∷ l) f h = (f x h.0, All-weaken l f h.1)

module _ {A : Type 0} where
  -- The item is in the list.
  abbrev pub Has : A → List A → Type 0
  Has a [] = ⊥
  Has a (x ∷ l) = (x ≡ a) ⊎ Has a l

  pub All-Has {κ} : (P : A → Type κ) (l : List A) (a : A) → All P l → Has a l → P a
  All-Has P [] a h m = absurd m
  All-Has P (x ∷ l) a h (inl e) = subst P e h.0
  All-Has P (x ∷ l) a h (inr m) = All-Has P l a h.1 m

  pub All-of_Has {κ} : (Q : A → Type κ) (l : List A) → ((a : A) → Has a l → Q a) → All Q l
  All-of_Has Q [] f = tt
  All-of_Has Q (x ∷ l) f = (f x (inl refl), All-of_Has Q l (λ a m. f a (inr m)))

module _ {ℓ} {A : Type ℓ} (R : A → A → Type 0) where
  -- Two lists of one length, related item by item.
  abbrev pub Pairwise : List A → List A → Type 0
  Pairwise [] [] = Unit
  Pairwise (x ∷ xs) (y ∷ ys) = R x y × Pairwise xs ys
  Pairwise _ _ = ⊥
