-- ===== src/Dialect/Rebound.antt =====
-- Rebind agrees with the machine of Dialect.Lexer (packages/db/dialect/dialect.go).
use Prim.Native.Char.{Char, code}
use Prim.Native.String.{◌++◌ as text_append}
use text.Mathlib.TextEquality.{Char-path}
use vpstools.Base.{
  ℕ, zero, suc, ◌≤◌, ◌≡◌, refl, sym, ap, ◌∙◌, String, Bool, true, false, List, eqb, ◌==◌, ◌&&◌,
  Bool-cases, inl, inr, arith, if◌then◌else◌,
}
use vpstools.Dialect.Rebind.{
  Driver, postgresql, is_supported, Kind, quotation, opening, hyphen, slash, question, backslash,
  other, kind_of, at, after, copy_quoted, copy_until, copy_block_comment, placeholder, switch,
  Round, rebind_from, rebind, size,
}
use vpstools.Dialect.Lexer.{Part, plain, parts, render, next, emit}
use vpstools.Dialect.Copies.{
  out-first, out-last, out-copy_quoted, out-identifier, out-after_hyphen, out-after_slash,
  out-after_backslash, out-after_question, out-escaped, out-doubled, out-line_comment,
  out-block_comment, render-sqlite, hyphen_char, slash_char, backslash_char, opening_goes_on, out,
}

-- What a round writes, before what the machine makes of the rest.
abbrev resumes : Bool → Round → String
resumes postgres r = text_append r.written (render postgres r.parameter (parts plain r.rest))

next_number :
    (postgres : Bool) (n : ℕ) (ps : List Part)
    → render postgres (suc n) ps ≡ render postgres (if postgres then suc n else n) ps
next_number true n ps = refl
next_number false n ps = render-sqlite (suc n) n ps

out-switch :
    (postgres : Bool) (n : ℕ) (c : Char) (s : String) (k : Kind)
    → kind_of c ≡ k
    → render postgres n (parts plain (String.◌∷◌ c s)) ≡ resumes postgres (switch k postgres n c s)
unfolding switch parts render next emit
out-switch postgres n c s quotation h =
    rw h (out-first postgres n c (copy_quoted (code c) s) _ (out-copy_quoted postgres n (code c) s))
out-switch postgres n c s opening h =
    rw (h, opening_goes_on c h)
      (out-first postgres n c (copy_until b']' s) _ (out-identifier postgres n s))
out-switch postgres n c s hyphen h = elim (Bool-cases (at b'-' s)) [
  | inl comment ↦ rw (h, comment) (out-line_comment postgres n c s (hyphen_char c h) comment)
  | inr alone ↦ rw (h, alone, out-after_hyphen postgres n s alone) (out-last postgres n c s)
]
out-switch postgres n c s slash h = elim (Bool-cases (at b'*' s)) [
  | inl comment ↦ rw (h, comment) (out-block_comment postgres n c s (slash_char c h) comment)
  | inr alone ↦ rw (h, alone, out-after_slash postgres n s alone) (out-last postgres n c s)
]
out-switch postgres n c s question h = elim (Bool-cases (at b'?' s)) [
  | inl doubled ↦ rw (h, doubled) (out-doubled postgres n s doubled)
  | inr alone ↦
      rw (h, alone)
        (out-after_question postgres n s alone
          ∙ ap (text_append (placeholder postgres n)) (next_number postgres n (parts plain s)))
]
out-switch postgres n c s backslash h = elim (Bool-cases (at b'?' s)) [
  | inl escaped ↦ rw (h, escaped) (out-escaped postgres n s escaped)
  | inr alone ↦
      rw (h, alone, out-after_backslash postgres n s alone)
        (ap (λ x. String.◌∷◌ x (out postgres n plain s))
            (Char-path "\\" c (sym (backslash_char c h)))
          ∙ out-last postgres n c s)
]
out-switch postgres n c s other h = rw h (out-last postgres n c s)

-- A round leaves no more than what is behind the character that it looks at.
size-copy_quoted : (q : ℕ) (s : String) → size (copy_quoted q s).1 ≤ size s
unfolding copy_quoted size
size-copy_quoted q String.[] = omega arith
size-copy_quoted q (String.◌∷◌ c String.[]) = omega arith
size-copy_quoted q (String.◌∷◌ c (String.◌∷◌ d s)) = elim (Bool-cases (eqb (code c) q)) [
  | inl same ↦ elim (Bool-cases (eqb (code d) q)) [
    | inl doubled ↦ rw (same, doubled) (omega (arith, size-copy_quoted q s))
    | inr closed ↦ rw (same, closed) (omega arith)
  ]
  | inr differ ↦ rw differ (omega (arith, size-copy_quoted q (String.◌∷◌ d s)))
]

size-copy_until : (k : ℕ) (s : String) → size (copy_until k s).1 ≤ size s
unfolding copy_until size
size-copy_until k String.[] = omega arith
size-copy_until k (String.◌∷◌ c s) = elim (Bool-cases (eqb (code c) k)) [
  | inl same ↦ rw same (omega arith)
  | inr differ ↦ rw differ (omega (arith, size-copy_until k s))
]

size-after : (s : String) → size (after s) ≤ size s
unfolding size
size-after String.[] = omega arith
size-after (String.◌∷◌ c s) = omega arith

size-copy_block_comment : (s : String) → size (copy_block_comment s).1 ≤ size s
unfolding copy_block_comment size
size-copy_block_comment String.[] = omega arith
size-copy_block_comment (String.◌∷◌ c s) = elim (Bool-cases (eqb (code c) b'*' && at b'/' s)) [
  | inl ends ↦ rw ends (omega (arith, size-after s))
  | inr goes_on ↦ rw goes_on (omega (arith, size-copy_block_comment s))
]

size-switch :
    (postgres : Bool) (n : ℕ) (c : Char) (s : String) (k : Kind)
    → kind_of c ≡ k
    → size (switch k postgres n c s).rest ≤ size s
unfolding switch copy_until copy_block_comment
size-switch postgres n c s quotation h = size-copy_quoted (code c) s
size-switch postgres n c s opening h = rw (opening_goes_on c h) (size-copy_until b']' s)
size-switch postgres n c s hyphen h =
    let goes_on : eqb (code c) 10 ≡ false = ground (arith, hyphen_char c h) in
    elim (Bool-cases (at b'-' s)) [
      | inl comment ↦ rw (comment, goes_on) (size-copy_until 10 s)
      | inr alone ↦ rw alone (omega arith)
    ]
size-switch postgres n c s slash h =
    let goes_on : eqb (code c) b'*' ≡ false = ground (arith, slash_char c h) in
    elim (Bool-cases (at b'*' s)) [
      | inl comment ↦ rw (comment, goes_on) (size-copy_block_comment s)
      | inr alone ↦ rw alone (omega arith)
    ]
size-switch postgres n c s question h = elim (Bool-cases (at b'?' s)) [
  | inl doubled ↦ rw doubled (size-after s)
  | inr alone ↦ rw alone (omega arith)
]
size-switch postgres n c s backslash h = elim (Bool-cases (at b'?' s)) [
  | inl escaped ↦ rw escaped (size-after s)
  | inr alone ↦ rw alone (omega arith)
]
size-switch postgres n c s other h = omega arith

rebind_from-parts :
    (fuel : ℕ) (postgres : Bool) (n : ℕ) (s : String)
    → size s ≤ fuel
    → rebind_from fuel postgres n s ≡ render postgres n (parts plain s)
unfolding rebind_from size parts render
rebind_from-parts zero postgres n String.[] enough = refl
rebind_from-parts (suc fuel) postgres n String.[] enough = refl
rebind_from-parts zero postgres n (String.◌∷◌ c s) enough = absurd (omega arith)
rebind_from-parts (suc fuel) postgres n (String.◌∷◌ c s) enough =
    let round : Round = switch (kind_of c) postgres n c s in
    let smaller = size-switch postgres n c s (kind_of c) refl in
    ap (text_append round.written)
      (rebind_from-parts fuel postgres round.parameter round.rest (omega (arith, smaller)))
    ∙ sym (out-switch postgres n c s (kind_of c) refl)

-- For SQLite and PostgreSQL, and any query, Rebind ends and returns what the machine of Dialect.Lexer
-- makes of it: the parameters outside quotes, bracketed names and comments become `?`, or `$1`, `$2`, …
-- in their order, `??` and `\?` become `?`, and every other character stays, in its place.
pub rebind-parts :
    (d : Driver) (query : String)
    → is_supported d ≡ true
    → rebind d query ≡ render (d == postgresql) 1 (parts plain query)
unfolding rebind
rebind-parts d query supported =
    rw supported (rebind_from-parts (size query) (d == postgresql) 1 query (omega arith))
