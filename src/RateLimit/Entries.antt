-- ===== src/RateLimit/Entries.antt =====
-- The map of the limiter: `lookup`, `put`, `remove` and the eviction.
use vpstools.Base.{
  ℕ, suc, ◌≤◌, ◌≡◌, refl, ◌∙◌, ◌≢◌, ◌⊎◌, inl, inr, String, List, [], ◌∷◌, arith, eq_iff, ltb,
  length, All, if◌then◌else◌, Bool-cases,
}
use vpstools.Base.Assoc.{put, remove, length-remove-le}
use vpstools.RateLimit.{Bucket, oldest_from, evict_oldest}

-- The list has an entry for `k` that started at `t`.
abbrev pub HasEntry : String → ℕ → List (String × Bucket) → Type 0
HasEntry k t [] = ⊥
HasEntry k t ((j, b) ∷ l) = ((j ≡ k) × (b.started ≡ t)) ⊎ HasEntry k t l

-- No entry of the list started before `t`.
abbrev pub NoneBefore : ℕ → List (String × Bucket) → Type 0
NoneBefore t = All (λ e. t ≤ e.1.started)

-- No entry has the empty key.
abbrev pub Named : List (String × Bucket) → Type 0
Named = All (λ e. e.0 ≢ "")

pub length-remove :
    (k : String) (t : ℕ) (l : List (String × Bucket))
    → HasEntry k t l
    → suc (length (remove k l)) ≤ length l
unfolding remove
length-remove k t [] h = absurd h
length-remove k t ((j, b) ∷ l) h =
    ground (arith, eq_iff j k, length-remove k t l, length-remove-le k l)

pub Named-remove : (k : String) (l : List (String × Bucket)) → Named l → Named (remove k l)
unfolding remove
Named-remove k [] n = tt
Named-remove k ((j, b) ∷ l) n = ground (arith, Named-remove k l n.1)

pub Named-put :
    (k : String) (b : Bucket) (l : List (String × Bucket)) → k ≢ "" → Named l → Named (put k b l)
unfolding put
Named-put k b [] h n = (h, tt)
Named-put k b ((j, c) ∷ l) h n = ground (arith, Named-put k b l h n.1)

HasEntry-Named :
    (k : String) (t : ℕ) (l : List (String × Bucket)) → HasEntry k t l → Named l → k ≢ ""
HasEntry-Named k t [] h n = absurd h
HasEntry-Named k t ((j, b) ∷ l) (inl e) n = λ z. n.0 (e.0 ∙ z)
HasEntry-Named k t ((j, b) ∷ l) (inr h) n = HasEntry-Named k t l h n.1

-- What the loop of `evictOldest` has found.
pub record IsOldest (key : String) (l : List (String × Bucket)) : Type 0 where
  pub since : ℕ
  pub present : HasEntry key since l
  pub oldest : NoneBefore since l

NoneBefore-le : (s t : ℕ) (l : List (String × Bucket)) → s ≤ t → NoneBefore t l → NoneBefore s l
NoneBefore-le s t [] h n = tt
NoneBefore-le s t ((j, b) ∷ l) h n = (omega arith, NoneBefore-le s t l h n.1)

-- One round takes over the entry if it is older.
oldest_from-cons :
    (k j : String) (t : ℕ) (b : Bucket) (l : List (String × Bucket))
    → k ≢ ""
    → oldest_from k t ((j, b) ∷ l)
      ≡ (if ltb b.started t then oldest_from j b.started l else oldest_from k t l)
unfolding oldest_from
oldest_from-cons k j t b l h = ground (arith, eq_iff k "")

oldest_from-IsOldest :
    (k : String) (t : ℕ) (c : Bucket) (l : List (String × Bucket))
    → c.started ≡ t
    → k ≢ ""
    → Named l
    → IsOldest (oldest_from k t l) ((k, c) ∷ l)
unfolding oldest_from
oldest_from-IsOldest k t c [] e h n = record {
  since = t;
  present = inl (refl, e);
  oldest = (omega arith, tt);
}
oldest_from-IsOldest k t c ((j, b) ∷ l) e h n = elim (Bool-cases (ltb b.started t)) [
  | inl older ↦
      let r = oldest_from-IsOldest j b.started b l refl n.0 n.1 in
      rw (oldest_from-cons k j t b l h, older)
        (record { since = r.since; present = inr r.present; oldest = (ground arith, r.oldest) })
  | inr newer ↦
      let r = oldest_from-IsOldest k t c l e h n.1 in
      rw (oldest_from-cons k j t b l h, newer)
        (record {
          since = r.since;
          present = elim r.present [ inl a ↦ inl a | inr b ↦ inr (inr b) ];
          oldest = (r.oldest.0, (ground arith, r.oldest.1));
        })
]

-- From a list whose keys are not empty, `evictOldest` removes an entry that no other predates.
pub evict_oldest-IsOldest :
    (e : String × Bucket) (l : List (String × Bucket))
    → Named (e ∷ l)
    → (key : String) × IsOldest key (e ∷ l) × (evict_oldest (e ∷ l) ≡ remove key (e ∷ l))
unfolding evict_oldest
evict_oldest-IsOldest (j, b) l n =
    let found = oldest_from-IsOldest j b.started b l refl n.0 n.1 in
    (
      oldest_from j b.started l,
      found,
      rest found (HasEntry-Named _ found.since ((j, b) ∷ l) found.present n),
    )
  where
    rest :
        IsOldest (oldest_from j b.started l) ((j, b) ∷ l)
        → oldest_from j b.started l ≢ ""
        → evict_oldest ((j, b) ∷ l) ≡ remove (oldest_from j b.started l) ((j, b) ∷ l)
    rest found named = ground (arith, eq_iff (oldest_from j b.started l) "")
