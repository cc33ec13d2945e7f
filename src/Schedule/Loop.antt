-- ===== src/Schedule/Loop.antt =====
-- The loop of `NextAfter` with a step that stays in the positive range of an int64.
use vpstools.Base.{
  ℕ, zero, suc, ◌+◌, ◌*◌, ◌≤◌, ◌<◌, ◌≡◌, refl, ◌⊎◌, inl, inr, some, arith, ltb, Bool-cases,
}
use vpstools.Schedule.{int64_min, add, advance}

-- What the loop returns: the first time of the form `next + k * step` after `now`.
pub record IsFirstAfter (next now step r : ℕ) : Type 0 where
  pub rounds : ℕ
  pub reached : r ≡ next + rounds * step
  pub after : now < r
  pub first : (rounds ≡ 0) ⊎ (r ≤ now + step)

pub add-small : (t d : ℕ) → d < int64_min → add t d ≡ t + d
unfolding add
add-small t d h = ground arith

one_more :
    (next now step r : ℕ)
    → next ≤ now
    → IsFirstAfter (next + step) now step r
    → IsFirstAfter next now step r
one_more next now step r h f = record {
  rounds = suc f.rounds;
  reached = grind (arith, f.reached);
  after = f.after;
  first = elim f.first [ inl z ↦ inr (once z) | inr le ↦ inr le ];
}
  where
    once : f.rounds ≡ 0 → r ≤ now + step
    once z = grind (arith, f.reached)

-- `fuel` rounds that carry `next` past `now` are enough, and one more call sees the end.
pub advance-IsFirstAfter :
    (fuel next now step : ℕ)
    → step < int64_min
    → now < next + fuel * step
    → (r : ℕ) × (advance (suc fuel) next now step ≡ some r) × IsFirstAfter next now step r
unfolding advance
advance-IsFirstAfter zero next now step small h = (
  next,
  ground arith,
  record { rounds = 0; reached = omega arith; after = omega arith; first = inl refl },
)
advance-IsFirstAfter (suc fuel) next now step small h = elim (Bool-cases (ltb now next)) [
  | inl done ↦ (
    next,
    rw done,
    record { rounds = 0; reached = omega arith; after = ground arith; first = inl refl },
  )
  | inr more ↦
      let le : next ≤ now = ground arith in
      let rest = advance-IsFirstAfter fuel (next + step) now step small (grind arith) in
      (rest.0, rw (more, add-small next step small) rest.1, one_more next now step rest.0 le rest.2)
]
