-- ===== src/Schedule.antt =====
-- packages/automation/schedule.go: interval schedules.
-- A `time.Time` is the number of nanoseconds since the zero time, so `IsZero` is equality with 0; a
-- time before the zero time is held at it. `IntervalSeconds` is the Go `int`. A `time.Duration` is
-- an int64: `seconds` multiplies with its wrap-around, as a bit pattern below 2 ^ 64.
pub mod Loop
pub mod Next
pub mod Overflow
use vpstools.Base.{
  ℕ, zero, suc, ◌+◌, ◌-◌, ◌*◌, ◌%◌, ◌^◌, String, Bool, true, false, not, ◌&&◌, Option, none, some,
  List, ◌==◌, ltb, leb, eqb, if◌then◌else◌,
}
use vpstools.Base.Int.{ℤ, pos, negsuc, ltb_ℤ}

pub record Schedule : Type 0 where
  pub id : String
  pub organisation_id : String
  pub created_by_user_id : String
  pub name : String
  pub runbook_name : String
  pub target : String
  pub reason : String
  pub params : List (String × String)
  pub interval_seconds : ℤ
  pub next_run_at : ℕ
  pub enabled : Bool

pub data ScheduleError : Type 0 where
  name_required runbook_name_required target_required interval_too_short : ScheduleError
  next_run_time_required : ScheduleError

-- `trim` is `strings.TrimSpace`; the first error that applies is returned.
unfoldable pub validate : (String → String) → Schedule → Option ScheduleError
validate trim s =
    if trim s.name == ""
    then some name_required
    else if trim s.runbook_name == ""
    then some runbook_name_required
    else if trim s.target == ""
    then some target_required
    else if ltb_ℤ s.interval_seconds 60
    then some interval_too_short
    else if eqb s.next_run_at 0
    then some next_run_time_required
    else none

unfoldable pub due : Schedule → ℕ → Bool
due s now = s.enabled && not (eqb s.next_run_at 0) && not (ltb now s.next_run_at)

abbrev pub second : ℕ
second = 1000000000

abbrev pub int64_min : ℕ
int64_min = 2 ^ 63

abbrev pub int64_mod : ℕ
int64_mod = 2 ^ 64

-- `time.Duration(n) * time.Second` for a count of seconds that is not negative.
unfoldable pub seconds : ℕ → ℕ
seconds n = n * second % int64_mod

-- `t.Add(d)`: a pattern from 2 ^ 63 on is a negative duration.
unfoldable pub add : ℕ → ℕ → ℕ
add t d = if ltb d int64_min then t + d else t - (int64_mod - d)

-- `for !next.After(now) { next = next.Add(step) }`; `none` means that the fuel ran out.
unfoldable pub advance : ℕ → ℕ → ℕ → ℕ → Option ℕ
unfolding add
advance zero next now step = none
advance (suc fuel) next now step =
    let rest = advance fuel (add next step) now step in if ltb now next then some next else rest

-- The interval of a schedule as the count that `NextAfter` multiplies; below one it returns `now`.
next_for : ℕ → ℕ → ℤ → ℕ → Option ℕ
unfolding advance seconds
next_for fuel next (negsuc n) now = some now
next_for fuel next (pos n) now =
    let rest = advance fuel next now (seconds n) in
    if ltb n 1 then some now else if eqb next 0 then some (add now (seconds n)) else rest

unfoldable pub next_after : ℕ → Schedule → ℕ → Option ℕ
unfolding next_for
next_after fuel s now = next_for fuel s.next_run_at s.interval_seconds now
