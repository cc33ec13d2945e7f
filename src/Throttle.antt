-- ===== src/Throttle.antt =====
-- apps/api/reconcile_throttle.go: lease reconciliation at most once an interval for each organisation.
-- Times are nanoseconds; the mutex makes each call one step.
use vpstools.Base.{
  ℕ, ◌+◌, ◌≤◌, ◌<◌, ◌≡◌, refl, ◌∙◌, String, Bool, true, false, Option, none, some, List, [], ◌∷◌,
  arith, ◌==◌, eq_refl, ltb, All, if◌then◌else◌,
}
use vpstools.Base.Assoc.{lookup, put, remove, lookup-put, lookup-remove}

pub record Throttle : Type 0 where
  pub last : List (String × ℕ)

abbrev pub new : Throttle
new = record { last = [] }

-- leaseReconcileInterval, 15 seconds.
abbrev pub interval : ℕ
interval = 15000000000

record_attempt : String → ℕ → Throttle → Throttle × Bool
record_attempt org now t = (record t { last = put org now t.last }, true)

check : Option ℕ → String → ℕ → Throttle → Throttle × Bool
unfolding record_attempt
check none org now t = record_attempt org now t
check (some previous) org now t =
    if ltb now (previous + interval) then (t, false) else record_attempt org now t

unfoldable pub due : Throttle → String → ℕ → Throttle × Bool
unfolding check
due t org now = check (lookup org t.last) org now t

unfoldable pub forget : Throttle → String → Throttle
forget t org = record t { last = remove org t.last }

-- The answers to a series of calls for one organisation.
pub answers : Throttle → String → List ℕ → List Bool
answers t org [] = []
answers t org (now ∷ later) = let (t', d) = due t org now in d ∷ answers t' org later

lookup-put_self : (k : String) (n : ℕ) (l : List (String × ℕ)) → lookup k (put k n l) ≡ some n
lookup-put_self k n l = lookup-put k k n l ∙ rw (eq_refl k)

due_early :
    (t : Throttle) (org : String) (s now : ℕ)
    → lookup org t.last ≡ some s
    → now < s + interval
    → due t org now ≡ (t, false)
unfolding due
due_early t org s now known early = rw (known, due) (ground arith)

refused :
    (t : Throttle) (org : String) (s : ℕ) (times : List ℕ)
    → lookup org t.last ≡ some s
    → All (λ n. n < s + interval) times
    → All (λ d. d ≡ false) (answers t org times)
unfolding answers
refused t org s [] known early = tt
refused t org s (now ∷ later) known early =
    rw (due_early t org s now known early.0) (refl, refused t org s later known early.1)

due_recorded :
    (t : Throttle) (org : String) (now : ℕ)
    → (due t org now).1 ≡ true
    → (due t org now).0.last ≡ put org now t.last
unfolding due
due_recorded t org now first = ground arith

due_again :
    (t : Throttle) (org : String) (s later : ℕ)
    → lookup org t.last ≡ some s
    → s + interval ≤ later
    → (due t org later).1 ≡ true
unfolding due
due_again t org s later known late = rw (known, due) (ground arith)

due_new :
    (t : Throttle) (org : String) (later : ℕ)
    → lookup org t.last ≡ none
    → (due t org later).1 ≡ true
unfolding due
due_new t org later known = rw (known, due)

-- After a call that was due at `now`, every later call of the organisation within the interval is
-- refused, and a call at the end of the interval or after it is due again. `forget` makes the next
-- call due at any time, and neither changes when another organisation was last reconciled.
pub due_once :
    (t : Throttle) (org : String) (now : ℕ)
    → (due t org now).1 ≡ true
    → ((times : List ℕ)
        → All (λ n. n < now + interval) times
        → All (λ d. d ≡ false) (answers (due t org now).0 org times))
      × ((later : ℕ) → now + interval ≤ later → (due (due t org now).0 org later).1 ≡ true)
      × ((later : ℕ) → (due (forget t org) org later).1 ≡ true)
      × ((other : String)
          → (org == other) ≡ false
          → (lookup other (due t org now).0.last ≡ lookup other t.last)
            × (lookup other (forget t org).last ≡ lookup other t.last))
unfolding forget
due_once t org now first =
    let recorded = due_recorded t org now first in
    let known : lookup org (due t org now).0.last ≡ some now =
      rw recorded (lookup-put_self org now t.last) in
    (
      λ times early. refused (due t org now).0 org now times known early,
      λ later late. due_again (due t org now).0 org now later known late,
      λ later. due_new _ org later (lookup-remove org org t.last ∙ rw (eq_refl org)),
      λ other ne. (
        rw recorded (lookup-put org other now t.last ∙ rw ne),
        lookup-remove org other t.last ∙ rw ne,
      ),
    )
