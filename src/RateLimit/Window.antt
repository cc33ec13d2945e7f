-- ===== src/RateLimit/Window.antt =====
-- How many requests of one client pass in a window.
use vpstools.Base.{
  ℕ, suc, ◌+◌, ◌≤◌, ◌<◌, ◌≡◌, ◌⊎◌, String, Bool, true, none, some, List, [], ◌∷◌, All,
  if◌then◌else◌,
}
use vpstools.Base.Assoc.{lookup}
use vpstools.RateLimit.{Bucket, Limiter, allow}

-- The requests of one key at the given times, and how many of them pass.
pub granted : Limiter → String → List ℕ → ℕ
granted l key [] = 0
granted l key (t ∷ ts) =
    let (l', ok) = allow l key t in let rest = granted l' key ts in if ok then suc rest else rest

-- Each time lies in the window that started at `s`.
abbrev pub Within : ℕ → ℕ → List ℕ → Type 0
Within s window = All (λ t. t < s + window)

-- No window of the key is open at the time.
abbrev pub IsFresh : Limiter → String → ℕ → Type 0
IsFresh l key now =
    (lookup key l.entries ≡ none)
    ⊎ ((b : Bucket) × (lookup key l.entries ≡ some b) × (b.started + l.window ≤ now))

-- A limiter that has just started a window for the key.
record Opened (l : Limiter) (key : String) (now : ℕ) (r : Limiter × Bool) : Type 0 where
  passes : r.1 ≡ true
  entry : lookup key r.0.entries ≡ some (record { started = now; count = 1 })
  same_limit : r.0.limit ≡ l.limit
  same_window : r.0.window ≡ l.window
