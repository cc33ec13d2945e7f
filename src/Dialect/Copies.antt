-- ===== src/Dialect/Copies.antt =====
-- The copies of quoted parts and comments against the machine of Dialect.Lexer
-- (packages/db/dialect/dialect.go).
use Prim.Native.Char.{Char, code}
use Prim.Native.String.{◌++◌ as text_append}
use text.Mathlib.TextEquality.{Char-path}
use text.Mathlib.TextLemmas.{cons-append, nil-append}
use vpstools.Base.{
  ℕ, suc, ◌≡◌, refl, sym, ap, ◌∙◌, String, Bool, true, false, List, [], ◌∷◌, eqb, eqb_iff,
  Bool-cases, inl, inr, arith,
}
use vpstools.Dialect.Rebind.{
  opening, hyphen, slash, backslash, kind_of, at, after, Copied, with_first, copy_quoted,
  copy_until, copy_block_comment, placeholder,
}
use vpstools.Dialect.Lexer.{
  Mode, Part, literal, parameter, plain, quoted, after_hyphen, after_slash, after_question,
  after_backslash, identifier, line, block, star, next, emit, parts, render,
}

module _ (postgres : Bool) (n : ℕ) where
  -- What the machine makes of a text from a mode on.
  abbrev pub out : Mode → String → String
  out m s = render postgres n (parts m s)

  -- What a copy writes, before what the machine makes of the rest.
  abbrev pub resumed : Copied → String
  resumed (w, r) = text_append w (out plain r)

  pub out-first :
      (c : Char) (x : Copied) (t : String)
      → t ≡ resumed x
      → String.◌∷◌ c t ≡ resumed (with_first c x)
  out-first c (w, r) t h = ap (String.◌∷◌ c) h ∙ sym (cons-append c w (out plain r))

  pub out-last : (c : Char) (r : String) → String.◌∷◌ c (out plain r) ≡ resumed (String.◌∷◌ c "", r)
  out-last c r = sym (cons-append c "" (out plain r) ∙ ap (String.◌∷◌ c) (nil-append (out plain r)))

  pub out-copy_quoted : (q : ℕ) (s : String) → out (quoted q) s ≡ resumed (copy_quoted q s)
  unfolding copy_quoted parts render next emit
  out-copy_quoted q String.[] = sym (nil-append "")
  out-copy_quoted q (String.◌∷◌ c String.[]) = elim (Bool-cases (eqb (code c) q)) [
    | inl same ↦ rw same (out-last c "")
    | inr differ ↦ rw differ (out-last c "")
  ]
  out-copy_quoted q (String.◌∷◌ c (String.◌∷◌ d s)) = elim (Bool-cases (eqb (code c) q)) [
    | inl same ↦ elim (Bool-cases (eqb (code d) q)) [
      | inl doubled ↦
          rw (same, doubled)
            (out-first c (with_first d (copy_quoted q s)) _
              (out-first d (copy_quoted q s) _ (out-copy_quoted q s)))
      | inr closed ↦ rw (same, closed) (out-last c (String.◌∷◌ d s))
    ]
    | inr differ ↦
        rw differ
          (out-first c (copy_quoted q (String.◌∷◌ d s)) _ (out-copy_quoted q (String.◌∷◌ d s)))
  ]

  pub out-identifier : (s : String) → out identifier s ≡ resumed (copy_until b']' s)
  unfolding copy_until parts render next emit
  out-identifier String.[] = sym (nil-append "")
  out-identifier (String.◌∷◌ c s) = elim (Bool-cases (eqb (code c) b']')) [
    | inl same ↦ rw same (out-last c s)
    | inr differ ↦ rw differ (out-first c (copy_until b']' s) _ (out-identifier s))
  ]

  out-line : (s : String) → out line s ≡ resumed (copy_until 10 s)
  unfolding copy_until parts render next emit
  out-line String.[] = sym (nil-append "")
  out-line (String.◌∷◌ c s) = elim (Bool-cases (eqb (code c) 10)) [
    | inl same ↦ rw same (out-last c s)
    | inr differ ↦ rw differ (out-first c (copy_until 10 s) _ (out-line s))
  ]

  -- Behind a star that differs slash follows, the comment goes on.
  out-star : (s : String) → at b'/' s ≡ false → out star s ≡ out block s
  unfolding parts render next emit
  out-star String.[] going = refl
  out-star (String.◌∷◌ c s) going = rw going

  out-star-ends :
      (s : String) → at b'/' s ≡ true → out star s ≡ String.◌∷◌ "/" (out plain (after s))
  unfolding parts render next emit
  out-star-ends String.[] ends = cc ends
  out-star-ends (String.◌∷◌ c s) ends =
      rw ends
        (ap (λ x. String.◌∷◌ x (out plain s)) (Char-path c "/" ((eqb_iff (code c) b'/').0 ends)))

  out-block : (s : String) → out block s ≡ resumed (copy_block_comment s)
  unfolding copy_block_comment parts render next emit
  out-block String.[] = sym (nil-append "")
  out-block (String.◌∷◌ c s) = elim (Bool-cases (eqb (code c) b'*')) [
    | inl same ↦ elim (Bool-cases (at b'/' s)) [
      | inl ends ↦
          rw (same, ends)
            (out-first c ("/", after s) _ (out-star-ends s ends ∙ out-last "/" (after s)))
      | inr going ↦
          rw (same, going, out-star s going) (out-first c (copy_block_comment s) _ (out-block s))
    ]
    | inr differ ↦ rw differ (out-first c (copy_block_comment s) _ (out-block s))
  ]

  -- The machine's wait ends where the next character is not the one that it waits for.
  pub out-after_hyphen : (s : String) → at b'-' s ≡ false → out after_hyphen s ≡ out plain s
  unfolding parts render next emit
  out-after_hyphen String.[] differs = refl
  out-after_hyphen (String.◌∷◌ c s) differs = rw differs

  pub out-after_slash : (s : String) → at b'*' s ≡ false → out after_slash s ≡ out plain s
  unfolding parts render next emit
  out-after_slash String.[] differs = refl
  out-after_slash (String.◌∷◌ c s) differs = rw differs

  pub out-after_backslash :
      (s : String) → at b'?' s ≡ false → out after_backslash s ≡ String.◌∷◌ "\\" (out plain s)
  unfolding parts render next emit
  out-after_backslash String.[] differs = refl
  out-after_backslash (String.◌∷◌ c s) differs = rw differs

  pub out-after_question :
      (s : String)
      → at b'?' s ≡ false
      → out after_question s
        ≡ text_append (placeholder postgres n) (render postgres (suc n) (parts plain s))
  unfolding parts render next emit
  out-after_question String.[] differs = refl
  out-after_question (String.◌∷◌ c s) differs = rw differs

  pub out-escaped : (s : String) → at b'?' s ≡ true → out after_backslash s ≡ resumed ("?", after s)
  unfolding parts render next emit
  out-escaped String.[] matches = cc matches
  out-escaped (String.◌∷◌ c s) matches = rw matches (out-last "?" s)

  pub out-doubled : (s : String) → at b'?' s ≡ true → out after_question s ≡ resumed ("?", after s)
  unfolding parts render next emit
  out-doubled String.[] matches = cc matches
  out-doubled (String.◌∷◌ c s) matches = rw matches (out-last "?" s)

  pub out-line_comment :
      (c : Char) (s : String)
      → code c ≡ b'-'
      → at b'-' s ≡ true
      → String.◌∷◌ c (out after_hyphen s) ≡ resumed (copy_until 10 (String.◌∷◌ c s))
  unfolding copy_until parts render next emit
  out-line_comment c String.[] first second = cc second
  out-line_comment c (String.◌∷◌ d s) first second =
      let c_goes_on : eqb (code c) 10 ≡ false = ground arith in
      let d_goes_on : eqb (code d) 10 ≡ false = ground arith in
      rw (c_goes_on, second, d_goes_on)
        (out-first c (with_first d (copy_until 10 s)) _
          (out-first d (copy_until 10 s) _ (out-line s)))

  out-opened : (s : String) → at b'*' s ≡ true → out after_slash s ≡ out block s
  unfolding parts render next emit
  out-opened String.[] second = refl
  out-opened (String.◌∷◌ d s) second = rw second

  pub out-block_comment :
      (c : Char) (s : String)
      → code c ≡ b'/'
      → at b'*' s ≡ true
      → String.◌∷◌ c (out after_slash s) ≡ resumed (copy_block_comment (String.◌∷◌ c s))
  unfolding copy_block_comment parts render next emit
  out-block_comment c String.[] first second = cc second
  out-block_comment c (String.◌∷◌ d s) first second =
      let c_goes_on : eqb (code c) b'*' ≡ false = ground arith in
      rw c_goes_on (
        out-first c (copy_block_comment (String.◌∷◌ d s)) _
          (out-opened (String.◌∷◌ d s) second ∙ out-block (String.◌∷◌ d s)))

-- SQLite's parameters have differs number.
pub render-sqlite : (n m : ℕ) (ps : List Part) → render false n ps ≡ render false m ps
unfolding render placeholder
render-sqlite n m [] = refl
render-sqlite n m (literal c ∷ ps) = ap (String.◌∷◌ c) (render-sqlite n m ps)
render-sqlite n m (parameter ∷ ps) = ap (text_append "?") (render-sqlite (suc n) (suc m) ps)

pub hyphen_char : (c : Char) → kind_of c ≡ hyphen → code c ≡ b'-'
unfolding kind_of
hyphen_char c h = ground arith

pub slash_char : (c : Char) → kind_of c ≡ slash → code c ≡ b'/'
unfolding kind_of
slash_char c h = ground arith

pub backslash_char : (c : Char) → kind_of c ≡ backslash → code c ≡ 92
unfolding kind_of
backslash_char c h = ground arith

pub opening_goes_on : (c : Char) → kind_of c ≡ opening → eqb (code c) b']' ≡ false
unfolding kind_of
opening_goes_on c h = ground arith
