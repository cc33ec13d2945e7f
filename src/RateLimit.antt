-- ===== src/RateLimit.antt =====
-- apps/api/ratelimit.go: the process-local request limiter.
-- The map is an association list in the order in which `range` visits it; Go chooses that order
-- freely, and the theorems hold for every list. Times and the window are nanoseconds, and the clock
-- reading `l.now()` is an argument of each call. `now.Sub(started) >= window` is
-- `started + window <= now`. The mutex makes each call one step.
pub mod Entries
pub mod Bounds
pub mod Window
use vpstools.Base.{
  ℕ, suc, ◌+◌, String, Bool, true, false, not, ◌&&◌, ◌||◌, Option, none, some, List, [], ◌∷◌, ◌==◌,
  ltb, leb, length, if◌then◌else◌,
}
use vpstools.Base.Assoc.{lookup, put, remove}
use text.Mathlib.Text.{starts_with}

pub record Bucket : Type 0 where
  pub started : ℕ
  pub count : ℕ

pub record Limiter : Type 0 where
  pub entries : List (String × Bucket)
  pub max_keys : ℕ
  pub limit : ℕ
  pub window : ℕ

-- The loop of `evictOldest`: `oldest_key` is empty until a first entry is taken.
unfoldable pub oldest_from : String → ℕ → List (String × Bucket) → String
oldest_from oldest_key oldest [] = oldest_key
oldest_from oldest_key oldest ((k, b) ∷ l) =
    let better = oldest_key == "" || ltb b.started oldest in
    oldest_from (if better then k else oldest_key) (if better then b.started else oldest) l

unfoldable pub evict_oldest : List (String × Bucket) → List (String × Bucket)
unfolding oldest_from
evict_oldest l = let key = oldest_from "" 0 l in if key == "" then l else remove key l

-- The branch of `allow` that starts a window.
start_window : String → ℕ → Bool → Limiter → Limiter
start_window key now known l =
    let room =
      if not known && leb l.max_keys (length l.entries)
      then evict_oldest l.entries
      else l.entries in
    record l { entries = put key (record { started = now; count = 1 }) room }

decide : Option Bucket → String → ℕ → Limiter → Limiter × Bool
unfolding start_window
decide none key now l = (start_window key now false l, true)
decide (some b) key now l =
    if leb (b.started + l.window) now
    then (start_window key now true l, true)
    else if leb l.limit b.count
    then (l, false)
    else (record l { entries = put key (record b { count = suc b.count }) l.entries }, true)

unfoldable pub allow : Limiter → String → ℕ → Limiter × Bool
unfolding decide
allow l key now = decide (lookup key l.entries) key now l

-- `newAPIRateLimiter`, with `newBoundedRateLimiter`.
abbrev pub new_api_limiter : Limiter
new_api_limiter = record { entries = []; max_keys = 2048; limit = 60; window = 60000000000 }

-- `rateLimitClass`: the class of a request by method and path, and whether it is limited.
unfoldable pub rate_limit_class : String → String → String × Bool
rate_limit_class method path =
    if method == "GET" || (method == "HEAD" || method == "OPTIONS")
    then ("", false)
    else if not (starts_with path "/api/")
        || (starts_with path "/api/v1/jobs/"
            || (path == "/api/v1/runners" || path == "/api/v1/runners/heartbeat"))
    then ("", false)
    else if starts_with path "/api/v1/auth/"
    then ("auth", true)
    else ("mutation", true)

-- `rateLimitClient`: `split` is the host that `net.SplitHostPort` finds in the address, if any.
unfoldable pub rate_limit_client : (String → Option String) → String → String
rate_limit_client split remote_addr =
    let plain = if remote_addr == "" then "unknown" else remote_addr in
    elim (split remote_addr) [ none ↦ plain | some host ↦ if host == "" then plain else host ]
