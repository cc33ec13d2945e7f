-- ===== src/Base/Assoc.antt =====
-- A Go map with text keys, as an association list. `range` visits a map in no fixed order, so a
-- theorem about a list holds for each order.
use vpstools.Base.{
  suc, ◌≤◌, ◌≡◌, String, Option, none, some, List, [], ◌∷◌, arith, ◌==◌, eq_iff, length, Bool, true,
  false, Bool-cases, inl, inr, subst, sym, ◌∙◌, Option, if◌then◌else◌,
}

module _ {ℓ} {V : Type ℓ} where
  -- `m[k]`.
  unfoldable pub lookup : String → List (String × V) → Option V
  lookup k [] = none
  lookup k ((j, v) ∷ l) = if j == k then some v else lookup k l

  -- `m[k] = v`.
  unfoldable pub put : String → V → List (String × V) → List (String × V)
  put k v [] = (k, v) ∷ []
  put k v ((j, w) ∷ l) = if j == k then (k, v) ∷ l else (j, w) ∷ put k v l

  -- `delete(m, k)`.
  unfoldable pub remove : String → List (String × V) → List (String × V)
  remove k [] = []
  remove k ((j, w) ∷ l) = let rest = remove k l in if j == k then rest else (j, w) ∷ rest

  pub lookup-put :
      (k j : String) (v : V) (l : List (String × V))
      → lookup j (put k v l) ≡ (if k == j then some v else lookup j l)
  unfolding lookup put
  lookup-put k j v [] = ground arith
  lookup-put k j v ((i, w) ∷ l) =
      ground (arith, eq_iff k j, eq_iff i k, eq_iff i j, lookup-put k j v l)

  pub lookup-remove :
      (k j : String) (l : List (String × V))
      → lookup j (remove k l) ≡ (if k == j then none else lookup j l)
  unfolding lookup remove
  lookup-remove k j [] = ground arith
  lookup-remove k j ((i, w) ∷ l) =
      ground (arith, eq_iff k j, eq_iff i k, eq_iff i j, lookup-remove k j l)

  pub length-put :
      (k : String) (v : V) (l : List (String × V)) → length (put k v l) ≤ suc (length l)
  unfolding put
  length-put k v [] = omega arith
  length-put k v ((i, w) ∷ l) = ground (arith, length-put k v l)

  -- A key that is there is overwritten in place.
  pub length-put-known :
      (k : String) (v w : V) (l : List (String × V))
      → lookup k l ≡ some w
      → length (put k v l) ≡ length l
  unfolding put lookup
  length-put-known k v w [] h = ground arith
  length-put-known k v w ((i, x) ∷ l) h = ground (arith, length-put-known k v w l)

  pub length-remove-le : (k : String) (l : List (String × V)) → length (remove k l) ≤ length l
  unfolding remove
  length-remove-le k [] = omega arith
  length-remove-le k ((i, w) ∷ l) = ground (arith, length-remove-le k l)

module _ {ℓ κ} {V : Type ℓ} (Q : String → V → Type κ) where
  -- Every binding that can be looked up satisfies `Q`.
  abbrev pub Holds : List (String × V) → Type (ℓ ⊔ κ)
  Holds l = (k : String) (v : V) → lookup k l ≡ some v → Q k v

  pub Holds-nil : Holds []
  unfolding lookup
  Holds-nil k v h = cc

  pub Holds-put : (k : String) (v : V) (l : List (String × V)) → Q k v → Holds l → Holds (put k v l)
  Holds-put k v l q h j w found = elim (Bool-cases (k == j)) [
    | inl same ↦
        let bound : some v ≡ some w =
          first (k == j) (lookup j l) same (sym (lookup-put k j v l) ∙ found) in
        subst (λ i. Q i w) ((eq_iff k j).0 same) (subst (Q k) (cc bound) q)
    | inr other ↦ h j w (later (k == j) (lookup j l) other (sym (lookup-put k j v l) ∙ found))
  ]
    where
      first :
          (b : Bool) (o : Option V)
          → b ≡ true
          → (if b then some v else o) ≡ some w
          → some v ≡ some w
      first true o e f = f
      first false o e f = cc e

      later :
          (b : Bool) (o : Option V) → b ≡ false → (if b then some v else o) ≡ some w → o ≡ some w
      later true o e f = cc e
      later false o e f = f
