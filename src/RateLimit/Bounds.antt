-- ===== src/RateLimit/Bounds.antt =====
-- The bounds of the limiter: its number of keys, and the count of a window.
use vpstools.Base.{ℕ, suc, ◌≤◌, String, List, length, All}
use vpstools.Base.Assoc
use vpstools.RateLimit.{Bucket, Limiter}
use vpstools.RateLimit.Entries.{Named}

-- The bounds that the limiter promises, with room for at least one key and one request.
pub record IsBounded (l : Limiter) : Type 0 where
  pub keys : length l.entries ≤ l.max_keys
  pub named : Named l.entries
  pub counts : All (λ e. e.1.count ≤ l.limit) l.entries

-- The eviction makes room for one key, and keeps the bounds of the other entries.
record IsRoom (l r : List (String × Bucket)) (n : ℕ) : Type 0 where
  fewer : suc (length r) ≤ length l
  named : Named r
  counts : All (λ e. e.1.count ≤ n) r
