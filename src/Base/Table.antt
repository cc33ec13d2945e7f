-- ===== src/Base/Table.antt =====
-- A database table as the list of its rows, and the statements that the handlers run on it.
pub mod Laws
use vpstools.Base.{
  ℕ, zero, suc, Bool, true, false, Option, none, some, List, [], ◌∷◌, if◌then◌else◌,
}

module _ {ℓ} {A : Type ℓ} where
  -- SELECT … WHERE p: the first row in the table's order.
  unfoldable pub find : (A → Bool) → List A → Option A
  find p [] = none
  find p (x ∷ xs) = if p x then some x else find p xs

  -- SELECT … WHERE p.
  unfoldable pub select : (A → Bool) → List A → List A
  select p [] = []
  select p (x ∷ xs) = let rest = select p xs in if p x then x ∷ rest else rest

  -- UPDATE … SET f WHERE p.
  unfoldable pub update : (A → Bool) → (A → A) → List A → List A
  update p f [] = []
  update p f (x ∷ xs) = (if p x then f x else x) ∷ update p f xs

  -- SELECT COUNT(*) … WHERE p, and the rows that an UPDATE … WHERE p affects.
  unfoldable pub count : (A → Bool) → List A → ℕ
  count p [] = zero
  count p (x ∷ xs) = let rest = count p xs in if p x then suc rest else rest

  -- EXISTS (SELECT 1 … WHERE p).
  unfoldable pub exists : (A → Bool) → List A → Bool
  exists p [] = false
  exists p (x ∷ xs) = if p x then true else exists p xs
