-- ===== src/Dialect/Lexer.antt =====
-- The lexical rules that Rebind goes by, as a machine that reads one character at a time
-- (packages/db/dialect/dialect.go): what is a parameter, and what stays as it is.
use Prim.Native.Char.{Char, code}
use Prim.Native.String.{◌++◌ as text_append}
use vpstools.Base.{ℕ, suc, String, Bool, List, [], ◌∷◌, ◌++◌, eqb, if◌then◌else◌}
use vpstools.Dialect.Rebind.{
  Kind, quotation, opening, hyphen, slash, question, backslash, other, kind_of, placeholder,
}

-- `star`: behind a star in a block comment, also that which opens it, so that `/*/` is a whole comment.
pub data Mode : Type 0 where
  plain after_hyphen after_slash after_question after_backslash identifier line block star : Mode
  quoted closing : ℕ → Mode

pub data Part : Type 0 where
  literal : Char → Part
  parameter : Part

abbrev next_plain : Kind → Char → Mode
next_plain quotation c = quoted (code c)
next_plain opening c = identifier
next_plain hyphen c = after_hyphen
next_plain slash c = after_slash
next_plain question c = after_question
next_plain backslash c = after_backslash
next_plain other c = plain

unfoldable pub next : Mode → Char → Mode
unfolding kind_of
next plain c = next_plain (kind_of c) c
next (quoted q) c = if eqb (code c) q then closing q else quoted q
next (closing q) c = if eqb (code c) q then quoted q else next_plain (kind_of c) c
next after_hyphen c = if eqb (code c) b'-' then line else next_plain (kind_of c) c
next after_slash c = if eqb (code c) b'*' then star else next_plain (kind_of c) c
next after_question c = if eqb (code c) b'?' then plain else next_plain (kind_of c) c
next after_backslash c = if eqb (code c) b'?' then plain else next_plain (kind_of c) c
next identifier c = if eqb (code c) b']' then plain else identifier
next line c = if eqb (code c) 10 then plain else line
next block c = if eqb (code c) b'*' then star else block
next star c = if eqb (code c) b'/' then plain else if eqb (code c) b'*' then star else block

-- A question mark or a backslash waits for the character behind it.
abbrev emit_plain : Kind → Char → List Part
emit_plain question c = []
emit_plain backslash c = []
emit_plain _ c = literal c ∷ []

unfoldable pub emit : Mode → Char → List Part
unfolding kind_of
emit plain c = emit_plain (kind_of c) c
emit (closing q) c = if eqb (code c) q then literal c ∷ [] else emit_plain (kind_of c) c
emit after_hyphen c = if eqb (code c) b'-' then literal c ∷ [] else emit_plain (kind_of c) c
emit after_slash c = if eqb (code c) b'*' then literal c ∷ [] else emit_plain (kind_of c) c
emit after_question c =
    if eqb (code c) b'?' then literal "?" ∷ [] else parameter ∷ emit_plain (kind_of c) c
emit after_backslash c =
    if eqb (code c) b'?' then literal "?" ∷ [] else literal "\\" ∷ emit_plain (kind_of c) c
emit _ c = literal c ∷ []

abbrev pub at_end : Mode → List Part
at_end after_question = parameter ∷ []
at_end after_backslash = literal "\\" ∷ []
at_end _ = []

unfoldable pub parts : Mode → String → List Part
unfolding next emit
parts m String.[] = at_end m
parts m (String.◌∷◌ c s) = emit m c ++ parts (next m c) s

-- The parameters are numbered as they come.
unfoldable pub render : Bool → ℕ → List Part → String
unfolding placeholder
render postgres n [] = ""
render postgres n (literal c ∷ ps) = String.◌∷◌ c (render postgres n ps)
render postgres n (parameter ∷ ps) =
    text_append (placeholder postgres n) (render postgres (suc n) ps)
