-- ===== src/Schedule/Next.antt =====
-- `NextAfter` of a schedule that passes `Validate`.
use vpstools.Base.{ℕ, suc, ◌+◌, ◌*◌, ◌≤◌, ◌<◌, ◌≡◌, ◌∙◌, String, none, some, arith}
use vpstools.Base.Int.{pos}
use vpstools.Schedule.{Schedule, validate, second, int64_min, seconds, advance, next_after}
use vpstools.Schedule.Loop.{IsFirstAfter, advance-IsFirstAfter}

-- Below 9223372037 seconds the product with `time.Second` does not overflow.
pub seconds-small : (n : ℕ) → n < 9223372037 → (seconds n ≡ n * second) × (seconds n < int64_min)
unfolding seconds
seconds-small n h = (omega arith, omega arith)

-- With a first run and an interval, `NextAfter` is its loop.
pub next_after-advance :
    (fuel : ℕ) (s : Schedule) (now n : ℕ)
    → s.interval_seconds ≡ pos n
    → 60 ≤ n
    → 0 < s.next_run_at
    → next_after fuel s now ≡ advance fuel s.next_run_at now (seconds n)
unfolding next_after
next_after-advance fuel s now n e some_interval first = rw (e, next_after) (ground arith)

module _ (trim : String → String) (s : Schedule) (ok : validate trim s ≡ none) where
  -- A valid schedule has a first run, and an interval of a minute or more.
  pub validate-bounds : {n : ℕ} → s.interval_seconds ≡ pos n → (60 ≤ n) × (0 < s.next_run_at)
  unfolding validate
  validate-bounds e = ground arith

  -- For a schedule that `Validate` accepts, with an interval below 9223372037 seconds, `NextAfter`
  -- ends and returns the first of the times next_run_at, next_run_at + interval, next_run_at +
  -- 2 * interval, … that lies after `now`: it is after `now`, and it is next_run_at itself or at
  -- most one interval later than `now`. Two more rounds than `now` counts nanoseconds are enough.
  pub next_after-IsFirstAfter :
      (now n : ℕ)
      → s.interval_seconds ≡ pos n
      → n < 9223372037
      → (r : ℕ) × (next_after (suc (suc now)) s now ≡ some r)
        × IsFirstAfter s.next_run_at now (n * second) r
  next_after-IsFirstAfter now n e small =
      let b = validate-bounds e in
      let c = seconds-small n small in
      let far : now < s.next_run_at + suc now * (n * second) = grind arith in
      let rest =
        advance-IsFirstAfter (suc now) s.next_run_at now (n * second) (rw (← c.0) c.1) far in
      (rest.0, next_after-advance (suc (suc now)) s now n e b.0 b.1 ∙ rw c.0 rest.1, rest.2)
