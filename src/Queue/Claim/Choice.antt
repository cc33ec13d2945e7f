-- ===== src/Queue/Claim/Choice.antt =====
-- Which target the claim query of apps/api/jobs.go picks.
use vpstools.Base.{
  ◌≤◌, ◌≡◌, refl, sym, Has, ap, ◌∙◌, String, true, Option, none, some, List, [], ◌∷◌, arith, ltb,
  All, All-weaken, inl, inr, Bool-cases,
}
use vpstools.Store.Rows.{Db, Target}
use vpstools.Store.Action.{Env}
use vpstools.Queue.Claim.{Row, join, keep, is_candidate, claim_query}

module _ (env : Env) (org runner filter : String) (db : Db) where
  abbrev pub Candidate : Row → Type 0
  Candidate r = is_candidate env org runner filter db r.target r.execution ≡ true

  -- The choice is as old as the row, if the row is a candidate.
  abbrev pub Beats : Option Row → Row → Type 0
  Beats none r = ¬ Candidate r
  Beats (some best) r = Candidate r → best.execution.requested_at ≤ r.execution.requested_at

  -- The choice beats the row that the target joins to, if it joins.
  abbrev pub Beaten : Option Row → Target → Type 0
  Beaten best t = (r : Row) → join db t ≡ some r → Beats best r

  -- The choice is a candidate of the targets, and is what its target joins to.
  abbrev pub Chosen : List Target → Option Row → Type 0
  Chosen ts none = Unit {0}
  Chosen ts (some best) = Candidate best × (join db best.target ≡ some best) × Has best.target ts

  Chosen-later :
      (t : Target) (ts : List Target) (best : Option Row) → Chosen ts best → Chosen (t ∷ ts) best
  Chosen-later t ts none c = tt
  Chosen-later t ts (some best) c = (c.0, c.1, inr c.2)

  join-target : (t : Target) (r : Row) → join db t ≡ some r → r.target ≡ t
  unfolding join
  join-target t r j = ground arith

  chosen :
      (t : Target) (ts : List Target) (r : Row) (best : Option Row)
      → r.target ≡ t
      → join db r.target ≡ some r
      → Chosen ts best
      → Chosen (t ∷ ts) (keep env org runner filter db (some r) best)
  unfolding keep
  chosen t ts r none same j c =
      elim (Bool-cases (is_candidate env org runner filter db r.target r.execution)) [
        | inl fits ↦ rw fits (fits, j, inl (sym same))
        | inr no_fit ↦ rw no_fit tt
      ]
  chosen t ts r (some b) same j c =
      elim (Bool-cases (is_candidate env org runner filter db r.target r.execution)) [
        | inl fits ↦ elim (Bool-cases (ltb b.execution.requested_at r.execution.requested_at)) [
          | inl older ↦ rw (fits, older) (Chosen-later t ts (some b) c)
          | inr younger ↦ rw (fits, younger) (fits, j, inl (sym same))
        ]
        | inr no_fit ↦ rw no_fit (Chosen-later t ts (some b) c)
      ]

  Beats-new : (r : Row) (best : Option Row) → Beats (keep env org runner filter db (some r) best) r
  unfolding keep
  Beats-new r none = ground arith
  Beats-new r (some b) = ground arith

  Beats-old :
      (r s : Row) (best : Option Row)
      → Beats best s
      → Beats (keep env org runner filter db (some r) best) s
  unfolding keep
  Beats-old r s none h = ground arith
  Beats-old r s (some b) h = ground arith

  -- One more target: the choice moves on to it, or stays.
  Chosen-step :
      (t : Target) (ts : List Target) (o : Option Row) (best : Option Row)
      → join db t ≡ o
      → Chosen ts best
      → Chosen (t ∷ ts) (keep env org runner filter db o best)
  unfolding keep
  Chosen-step t ts none best j c = Chosen-later t ts best c
  Chosen-step t ts (some r) best j c =
      chosen t ts r best (join-target t r j) (ap (join db) (join-target t r j) ∙ j) c

  Beaten-step :
      (t s : Target) (o : Option Row) (best : Option Row)
      → join db t ≡ o
      → Beaten best s
      → Beaten (keep env org runner filter db o best) s
  unfolding keep
  Beaten-step t s none best j h = h
  Beaten-step t s (some r) best j h = λ x e. Beats-old r x best (h x e)

  Beaten-new :
      (t : Target) (o : Option Row) (best : Option Row)
      → join db t ≡ o
      → Beaten (keep env org runner filter db o best) t
  Beaten-new t none best j r e = ground arith
  Beaten-new t (some x) best j r e =
      let same : x ≡ r = ground arith in rw (← same) (Beats-new x best)

  -- What the claim query returns is a candidate among the targets, with the execution and the server that it joins; every candidate among the
  -- targets was requested no earlier; and if it returns nothing then no target is a candidate.
  pub claim_query-oldest :
      (ts : List Target)
      → Chosen ts (claim_query env org runner filter db ts)
        × All (Beaten (claim_query env org runner filter db ts)) ts
  unfolding claim_query
  claim_query-oldest [] = (tt, tt)
  claim_query-oldest (t ∷ ts) =
      let rest = claim_query-oldest ts in
      let best = claim_query env org runner filter db ts in
      (
        Chosen-step t ts (join db t) best refl rest.0,
        (
          Beaten-new t (join db t) best refl,
          All-weaken _ _ ts (λ s. Beaten-step t s (join db t) best refl) rest.1,
        ),
      )
