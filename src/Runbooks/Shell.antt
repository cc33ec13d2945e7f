-- ===== src/Runbooks/Shell.antt =====
-- How a POSIX shell reads a command (chapter 2.2 of the Shell Command Language): which characters it
-- takes literally and which are active. A machine over the characters, written from the standard; what
-- it does not follow (back quotes, here-documents, `${…}`, `$((…))`, `$'…'`) leads to `beyond`.
use Prim.Native.Char.{Char, code}
use vpstools.Base.{
  ℕ, String, Bool, true, false, ◌&&◌, ◌||◌, List, [], ◌∷◌, ◌++◌, map, eqb, if◌then◌else◌,
}
use vpstools.Runbooks.Params.{Params, Piece, chunk, token, value_of}

pub data Mode : Type 0 where
  blank word escaped single double double_escaped double_dollar dollar opened less comment beyond :
      Mode

pub data Sym : Type 0 where
  literal : Char → Sym
  active : Char → Sym

abbrev pub quote : ℕ
quote = 39

abbrev dquote : ℕ
dquote = 34

abbrev newline : ℕ
newline = 10

abbrev backslash : ℕ
backslash = 92

-- What ends a word outside quotes.
abbrev is_separator : ℕ → Bool
is_separator c =
    eqb c b' '
    || (eqb c 9
        || (eqb c newline
            || (eqb c b';' || (eqb c b'&' || (eqb c b'|' || (eqb c b'(' || eqb c b')'))))))

-- Outside quotes; a `#` opens a comment only where a word may begin.
unfoldable pub bare_step : Bool → ℕ → Mode
bare_step at_start c =
    if eqb c quote
    then single
    else if eqb c dquote
    then double
    else if eqb c backslash
    then escaped
    else if eqb c b'$'
    then dollar
    else if eqb c 96
    then beyond
    else if eqb c b'<'
    then less
    else if at_start && eqb c b'#'
    then comment
    else if is_separator c
    then blank
    else word

unfoldable pub double_step : ℕ → Mode
double_step c =
    if eqb c dquote
    then word
    else if eqb c backslash
    then double_escaped
    else if eqb c b'$'
    then double_dollar
    else if eqb c 96
    then beyond
    else double

unfoldable pub step : Mode → ℕ → Mode
unfolding bare_step double_step
step blank c = bare_step true c
step word c = bare_step false c
step dollar c =
    if eqb c b'('
    then opened
    else if eqb c b'{' || (eqb c quote || eqb c dquote)
    then beyond
    else bare_step false c
step opened c = if eqb c b'(' then beyond else bare_step true c
step less c = if eqb c b'<' then beyond else bare_step true c
step escaped c = word
step single c = if eqb c quote then word else single
step double c = double_step c
step double_escaped c = double
step double_dollar c = if eqb c b'(' || eqb c b'{' then beyond else double_step c
step comment c = if eqb c newline then blank else comment
step beyond c = beyond

abbrev bare_emit : Char → List Sym
bare_emit c =
    if eqb (code c) quote || (eqb (code c) dquote || eqb (code c) backslash)
    then []
    else active c ∷ []

abbrev double_emit : Char → List Sym
double_emit c =
    if eqb (code c) dquote || eqb (code c) backslash
    then []
    else if eqb (code c) b'$' || eqb (code c) 96
    then active c ∷ []
    else literal c ∷ []

abbrev keeps_backslash : ℕ → Bool
keeps_backslash c = eqb c b'$' || (eqb c 96 || (eqb c dquote || eqb c backslash))

-- What a character contributes to the command.
unfoldable pub emit : Mode → Char → List Sym
emit escaped c = if eqb (code c) newline then [] else literal c ∷ []
emit single c = if eqb (code c) quote then [] else literal c ∷ []
emit double c = double_emit c
emit double_dollar c = double_emit c
emit double_escaped c =
    if eqb (code c) newline
    then []
    else if keeps_backslash (code c)
    then literal c ∷ []
    else literal "\\" ∷ literal c ∷ []
emit comment c = []
emit beyond c = active c ∷ []
emit _ c = bare_emit c

unfoldable pub read : Mode → String → List Sym
read m String.[] = []
read m (String.◌∷◌ c s) = emit m c ++ read (step m (code c)) s

-- Where a token is read as the start or a part of a word, outside quotes and comments.
unfoldable pub is_bare : Mode → Bool
is_bare blank = true
is_bare word = true
is_bare opened = true
is_bare less = true
is_bare _ = false

-- Every token of the command stands bare.
unfoldable pub all_bare : Mode → List Piece → Bool
unfolding is_bare
all_bare m [] = true
all_bare m (chunk c ∷ ps) = all_bare (step m (code c)) ps
all_bare m (token name ∷ ps) = is_bare m && all_bare word ps

abbrev pub literals : String → List Sym
literals String.[] = []
literals (String.◌∷◌ c s) = literal c ∷ literals s

-- What the author of the command wrote: its symbols, with a slot for each token. No value is read.
pub data Slot : Type 0 where
  fixed : Sym → Slot
  slot : String → Slot

unfoldable pub read_template : Mode → List Piece → List Slot
read_template m [] = []
read_template m (chunk c ∷ ps) = map fixed (emit m c) ++ read_template (step m (code c)) ps
read_template m (token name ∷ ps) = slot name ∷ read_template word ps

-- The slots filled with the values, as literal text.
unfoldable pub fill : Params → List Slot → List Sym
fill resolved [] = []
fill resolved (fixed s ∷ l) = s ∷ fill resolved l
fill resolved (slot name ∷ l) = literals (value_of resolved name) ++ fill resolved l
