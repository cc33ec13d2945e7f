-- ===== src/Dialect/Rebind.antt =====
-- Parse, Rebind, CurrentTime and the copies of quoted parts (packages/db/dialect/dialect.go). A query is
-- its characters in place of its bytes: every byte that the code looks at is a character of its own.
-- A position in the query is the text from there on.
use Prim.Native.Char.{Char, code}
use Prim.Native.String.{◌++◌ as text_append}
use vpstools.Base.{
  ℕ, zero, suc, ◌/◌, ◌%◌, String, Bool, false, not, ◌&&◌, ◌||◌, Option, none, some, ◌==◌, eqb, ltb,
  if◌then◌else◌,
}

abbrev pub Driver : Type 0
Driver = String

abbrev pub sqlite : Driver
sqlite = "sqlite"

abbrev pub postgresql : Driver
postgresql = "postgres"

abbrev pub is_supported : Driver → Bool
is_supported d = d == sqlite || d == postgresql

-- `Parse`; `lower_trim` is strings.ToLower after strings.TrimSpace.
unfoldable pub parse : (String → String) → String → Option Driver
parse lower_trim name = if is_supported (lower_trim name) then some (lower_trim name) else none

-- `CurrentTime`.
unfoldable pub current_time : Driver → String
current_time d = if is_supported d then "CURRENT_TIMESTAMP" else ""

-- What the `switch` of the loop tells apart.
pub data Kind : Type 0 where
  quotation opening hyphen slash question backslash other : Kind

unfoldable pub kind_of : Char → Kind
kind_of c =
    if eqb (code c) 39 || (eqb (code c) 34 || eqb (code c) 96)
    then quotation
    else if eqb (code c) b'['
    then opening
    else if eqb (code c) b'-'
    then hyphen
    else if eqb (code c) b'/'
    then slash
    else if eqb (code c) b'?'
    then question
    else if eqb (code c) 92
    then backslash
    else other

-- The next character is `k`.
abbrev pub at : ℕ → String → Bool
at k String.[] = false
at k (String.◌∷◌ c s) = eqb (code c) k

abbrev pub after : String → String
after String.[] = ""
after (String.◌∷◌ c s) = s

abbrev pub Copied : Type 0
Copied = String × String

abbrev pub with_first : Char → Copied → Copied
with_first c (w, r) = (String.◌∷◌ c w, r)

-- `copyQuoted` behind the opening quote: what it writes, and the rest of the query.
unfoldable pub copy_quoted : ℕ → String → Copied
copy_quoted q String.[] = ("", "")
copy_quoted q (String.◌∷◌ c String.[]) = (String.◌∷◌ c "", "")
copy_quoted q (String.◌∷◌ c (String.◌∷◌ d s)) =
    let further = copy_quoted q (String.◌∷◌ d s) in
    let doubled = copy_quoted q s in
    if eqb (code c) q
    then if eqb (code d) q
      then with_first c (with_first d doubled)
      else (String.◌∷◌ c "", String.◌∷◌ d s)
    else with_first c further

-- Up to the character `k`, and with it.
unfoldable pub copy_until : ℕ → String → Copied
copy_until k String.[] = ("", "")
copy_until k (String.◌∷◌ c s) =
    let rest = copy_until k s in if eqb (code c) k then (String.◌∷◌ c "", s) else with_first c rest

-- `copyBracketIdentifier`.
abbrev pub copy_bracket_identifier : String → Copied
copy_bracket_identifier = copy_until b']'

-- `copyLineComment`.
abbrev pub copy_line_comment : String → Copied
copy_line_comment = copy_until 10

-- `copyBlockComment`.
unfoldable pub copy_block_comment : String → Copied
copy_block_comment String.[] = ("", "")
copy_block_comment (String.◌∷◌ c s) =
    let rest = copy_block_comment s in
    if eqb (code c) b'*' && at b'/' s then (String.◌∷◌ c "/", after s) else with_first c rest

abbrev digit : ℕ → String
digit n =
    if eqb n 0
    then "0"
    else if eqb n 1
    then "1"
    else if eqb n 2
    then "2"
    else if eqb n 3
    then "3"
    else if eqb n 4
    then "4"
    else if eqb n 5
    then "5"
    else if eqb n 6
    then "6"
    else if eqb n 7
    then "7"
    else if eqb n 8
    then "8"
    else "9"

unfoldable digits : ℕ → ℕ → String
digits zero n = ""
digits (suc fuel) n =
    let front = digits fuel (n / 10) in
    if ltb n 10 then digit n else text_append front (digit (n % 10))

-- `%d`; a number has no more digits than it counts.
unfoldable pub decimal : ℕ → String
unfolding digits
decimal n = digits (suc n) n

-- A parameter: `?` for SQLite, its number for PostgreSQL.
unfoldable pub placeholder : Bool → ℕ → String
unfolding decimal
placeholder postgres n = if postgres then text_append "$" (decimal n) else "?"

-- What one round of the loop writes, the number of the next parameter, and the rest of the query.
pub record Round : Type 0 where
  pub written : String
  pub parameter : ℕ
  pub rest : String

abbrev pub copied : ℕ → Copied → Round
copied n (w, r) = record { written = w; parameter = n; rest = r }

-- The branches of the `switch`.
unfoldable pub switch : Kind → Bool → ℕ → Char → String → Round
unfolding copy_quoted copy_until copy_block_comment placeholder
switch quotation postgres n c s = copied n (with_first c (copy_quoted (code c) s))
switch opening postgres n c s = copied n (copy_bracket_identifier (String.◌∷◌ c s))
switch hyphen postgres n c s =
    if at b'-' s
    then copied n (copy_line_comment (String.◌∷◌ c s))
    else copied n (String.◌∷◌ c "", s)
switch slash postgres n c s =
    if at b'*' s
    then copied n (copy_block_comment (String.◌∷◌ c s))
    else copied n (String.◌∷◌ c "", s)
switch question postgres n c s = if at b'?' s then copied n ("?", after s) else record {
  written = placeholder postgres n;
  parameter = if postgres then suc n else n;
  rest = s;
}
switch backslash postgres n c s =
    if at b'?' s then copied n ("?", after s) else copied n (String.◌∷◌ c "", s)
switch other postgres n c s = copied n (String.◌∷◌ c "", s)

-- The loop, on fuel.
unfoldable pub rebind_from : ℕ → Bool → ℕ → String → String
unfolding switch kind_of
rebind_from zero postgres n s = ""
rebind_from (suc fuel) postgres n String.[] = ""
rebind_from (suc fuel) postgres n (String.◌∷◌ c s) =
    let round = switch (kind_of c) postgres n c s in
    text_append round.written (rebind_from fuel postgres round.parameter round.rest)

unfoldable pub size : String → ℕ
size String.[] = 0
size (String.◌∷◌ c s) = suc (size s)

-- `Rebind`; a round for each character is enough.
unfoldable pub rebind : Driver → String → String
unfolding rebind_from size
rebind d query =
    if not (is_supported d) then query else rebind_from (size query) (d == postgresql) 1 query
