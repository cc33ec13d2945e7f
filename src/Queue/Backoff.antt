-- ===== src/Queue/Backoff.antt =====
-- retryBackoffSeconds (apps/api/queue.go).
use Prim.Native.Nat.{min}
use native.Mathlib.Nat.{pow-suc, one-le-pow}
use vpstools.Base.{
  ℕ, zero, suc, ◌-◌, ◌*◌, ◌^◌, ◌≡◌, ◌∙◌, inl, inr, arith, ltb, Bool-cases, if◌then◌else◌,
}

-- `for i := 1; i < attempt && backoff < 60; i++ { backoff *= 2 }`, with the rounds that `i` leaves.
unfoldable pub double_while : ℕ → ℕ → ℕ
double_while zero backoff = backoff
double_while (suc rounds) backoff =
    let more = double_while rounds (backoff * 2) in if ltb backoff 60 then more else backoff

unfoldable pub retry_backoff_seconds : ℕ → ℕ
unfolding double_while
retry_backoff_seconds attempt =
    let backoff = double_while (attempt - 1) 1 in if ltb 60 backoff then 60 else backoff

doubled : (b n : ℕ) → b * 2 ^ suc n ≡ b * 2 * 2 ^ n
doubled b n = grind (arith, pow-suc 2 n)

double_while-min : (rounds b : ℕ) → min 60 (double_while rounds b) ≡ min 60 (b * 2 ^ rounds)
unfolding double_while
double_while-min zero b = omega arith
double_while-min (suc rounds) b = elim (Bool-cases (ltb b 60)) [
  | inl small ↦ rw small (double_while-min rounds (b * 2) ∙ rw (doubled b rounds))
  | inr big ↦ rw big (grind (arith, one-le-pow (suc rounds) 2 (omega arith)))
]

-- The wait before attempt n + 1 is 2 ^ (n - 1) seconds, and never more than a minute.
pub retry_backoff_seconds-min :
    (attempt : ℕ) → retry_backoff_seconds attempt ≡ min 60 (2 ^ (attempt - 1))
unfolding retry_backoff_seconds
retry_backoff_seconds-min attempt = ground (arith, double_while-min (attempt - 1) 1)
