-- ===== src/Schedule/Overflow.antt =====
-- `NextAfter` where the interval overflows a `time.Duration`: `Validate` has no upper bound for it.
use vpstools.Base.{ℕ, zero, suc, ◌≤◌, ◌<◌, ◌≡◌, refl, ◌∙◌, ◌⊎◌, String, none, arith}
use vpstools.Base.Int.{pos}
use vpstools.Schedule.{Schedule, validate, int64_min, int64_mod, seconds, add, advance, next_after}
use vpstools.Schedule.Next.{validate-bounds, next_after-advance}

-- A duration that does not move time forward: zero, or negative.
abbrev pub IsStalled : ℕ → Type 0
IsStalled d = (d ≡ 0) ⊎ (int64_min ≤ d)

add-stalled : (t d : ℕ) → IsStalled d → d < int64_mod → add t d ≤ t
unfolding add
add-stalled t d h small = ground arith

seconds-lt : (n : ℕ) → seconds n < int64_mod
unfolding seconds
seconds-lt n = omega arith

advance-stalled :
    (fuel next now step : ℕ)
    → IsStalled step
    → step < int64_mod
    → next ≤ now
    → advance fuel next now step ≡ none
unfolding advance
advance-stalled zero next now step h small le = refl
advance-stalled (suc fuel) next now step h small le =
    let back = add-stalled next step h small in
    ground (arith, advance-stalled fuel (add next step) now step h small)

-- A schedule that `Validate` accepts and whose interval, multiplied out in an int64, is zero or
-- negative (2 ^ 55 seconds, or 9223372037) makes `NextAfter` run for ever once it is due: no number
-- of rounds is enough.
pub next_after-stalled :
    (trim : String → String) (s : Schedule) (fuel now n : ℕ)
    → validate trim s ≡ none
    → s.interval_seconds ≡ pos n
    → IsStalled (seconds n)
    → s.next_run_at ≤ now
    → next_after fuel s now ≡ none
next_after-stalled trim s fuel now n ok e h le =
    let b = validate-bounds trim s ok e in
    next_after-advance fuel s now n e b.0 b.1
    ∙ advance-stalled fuel s.next_run_at now (seconds n) h (seconds-lt n) le
