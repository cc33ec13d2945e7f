-- ===== src/Examples/Timers.antt =====
-- Schedules, the request limiter and the reconciliation throttle.
use vpstools.Base.{
  ℕ, ◌+◌, ◌*◌, ◌≤◌, ◌<◌, ◌≡◌, refl, inl, String, true, false, none, some, List, [], ◌∷◌, arith,
  ◌==◌, All,
}
use vpstools.Base.Assoc.{lookup, put, remove}
use vpstools.Base.Int.{pos}
use vpstools.Schedule.{Schedule, validate, due, second, seconds, next_after}
use vpstools.Schedule.Loop.{IsFirstAfter}
use vpstools.Schedule.Next.{next_after-IsFirstAfter}
use vpstools.Schedule.Overflow.{next_after-stalled}
use vpstools.RateLimit.{Limiter, allow, rate_limit_class, rate_limit_client, evict_oldest}
use vpstools.Throttle
use vpstools.Throttle.{Throttle, interval, answers, due_once}

abbrev trim : String → String
trim s = s

abbrev hourly : Schedule
hourly = record {
  id = "sch_1";
  organisation_id = "org_1";
  created_by_user_id = "user_1";
  name = "nightly";
  runbook_name = "system-update";
  target = "server:web";
  reason = "";
  params = [];
  interval_seconds = pos 3600;
  next_run_at = 50;
  enabled = true;
}

-- 2 ^ 55 seconds are 2 ^ 64 * 1953125 nanoseconds.
abbrev endless : Schedule
endless = record hourly { interval_seconds = pos 36028797018963968 }

valid : (validate trim hourly ≡ none) × (validate trim endless ≡ none)
unfolding validate
valid = (refl, refl)

next_runs : next_after 3 hourly 60 ≡ some 3600000000050
unfolding next_after
next_runs = refl

due_now : (due hourly 49 ≡ false) × (due hourly 50 ≡ true)
unfolding due
due_now = (refl, refl)

next_after-IsFirstAfter_example :
    (r : ℕ) × (next_after 62 hourly 60 ≡ some r) × IsFirstAfter 50 60 (3600 * second) r
next_after-IsFirstAfter_example =
    next_after-IsFirstAfter trim hourly valid.0 60 3600 refl (omega arith)

next_after-stalled_example : next_after 1000 endless 60 ≡ none
unfolding seconds
next_after-stalled_example =
    next_after-stalled trim endless 1000 60 36028797018963968 valid.1 refl (inl refl) (omega arith)

abbrev small : Limiter
small = record { entries = []; max_keys = 1; limit = 2; window = 10 }

abbrev used : Limiter
used = record small { entries = ("mutation:a", record { started = 0; count = 2 }) ∷ [] }

-- The second client evicts the first.
evicts :
    (allow used "mutation:b" 5).0.entries ≡ ("mutation:b", record { started = 5; count = 1 }) ∷ []
unfolding allow lookup put remove evict_oldest
evicts = refl

classes :
    (rate_limit_class "GET" "/api/v1/executions" ≡ ("", false))
    × (rate_limit_class "POST" "/api/v1/jobs/result" ≡ ("", false))
    × (rate_limit_class "POST" "/api/v1/auth/login" ≡ ("auth", true))
    × (rate_limit_class "POST" "/api/v1/executions" ≡ ("mutation", true))
unfolding rate_limit_class
classes = (refl, refl, refl, refl)

clients :
    (rate_limit_client (λ a. none) "" ≡ "unknown")
    × (rate_limit_client (λ a. some "10.0.0.1") "10.0.0.1:99" ≡ "10.0.0.1")
unfolding rate_limit_client
clients = (refl, refl)

first_due : (Throttle.due Throttle.new "org_1" 7).1 ≡ true
unfolding Throttle.due lookup
first_due = refl

due_once_example :
    let t = (Throttle.due Throttle.new "org_1" 7).0 in
    ((times : List ℕ)
      → All (λ n. n < 7 + interval) times
      → All (λ d. d ≡ false) (answers t "org_1" times))
    × ((later : ℕ) → 7 + interval ≤ later → (Throttle.due t "org_1" later).1 ≡ true)
    × ((later : ℕ) → (Throttle.due (Throttle.forget Throttle.new "org_1") "org_1" later).1 ≡ true)
    × ((other : String)
        → ("org_1" == other) ≡ false
        → (lookup other t.last ≡ lookup other Throttle.new.last)
          × (lookup other (Throttle.forget Throttle.new "org_1").last
              ≡ lookup other Throttle.new.last))
due_once_example = due_once Throttle.new "org_1" 7 first_due
