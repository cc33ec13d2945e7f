-- ===== src/Runbooks/Params.antt =====
-- ValidateParams (packages/runbooks/runbook.go). Maps are association lists.
use Prim.Native.Char.{Char, code}
use Prim.Native.String.{count}
use vpstools.Base.{
  ℕ, zero, suc, ◌+◌, String, ◌&&◌, Option, none, some, List, [], ◌∷◌, ◌==◌, eqb, if◌then◌else◌,
}
use vpstools.Base.Assoc.{lookup, put}
use vpstools.Runbooks.Types.{
  Parameter, Runbook, Texts, Checked, accepted, rejected, reject_if, ◌>>=◌, ◌>>◌,
}
use vpstools.Runbooks.Values.{ValueError, is_name_start, is_name_char, validate_parameter_value}

abbrev pub Params : Type 0
Params = List (String × String)

pub data ParamError : Type 0 where
  unknown_parameter : String → ParamError
  invalid : String → ValueError → ParamError
  required_missing : String → ParamError
  token_missing : String → ParamError

-- A command is read as characters and tokens ${name}.
pub data Piece : Type 0 where
  chunk : Char → Piece
  token : String → Piece

-- The rest of a name, up to the closing brace.
unfoldable pub name_end : String → Option String
name_end String.[] = none
name_end (String.◌∷◌ c s) =
    let rest = name_end s in
    if eqb (code c) b'}'
    then some ""
    else if is_name_char (code c)
    then (elim rest [ none ↦ none | some n ↦ some (String.◌∷◌ c n) ])
    else none

-- The match of `[A-Za-z_][A-Za-z0-9_]*\}`.
unfoldable pub token_name : String → Option String
unfolding name_end
token_name String.[] = none
token_name (String.◌∷◌ c s) = if is_name_start (code c) then name_end (String.◌∷◌ c s) else none

-- The match of the whole expression, at its start.
unfoldable pub token_at : String → Option String
unfolding token_name
token_at (String.◌∷◌ c (String.◌∷◌ d s)) =
    if eqb (code c) b'$' && eqb (code d) b'{' then token_name s else none
token_at _ = none

-- The matches of `parameterToken` from the left, and the characters between them; the number is how
-- much of the last match is still to be passed over.
unfoldable pub pieces_from : ℕ → String → List Piece
unfolding token_at
pieces_from k String.[] = []
pieces_from (suc k) (String.◌∷◌ c s) = pieces_from k s
pieces_from zero (String.◌∷◌ c s) = elim (token_at (String.◌∷◌ c s)) [
  | none ↦ chunk c ∷ pieces_from 0 s
  | some name ↦ token name ∷ pieces_from (count name + 2) s
]

unfoldable pub pieces : String → List Piece
unfolding pieces_from
pieces command = pieces_from 0 command

-- `definitions`: of two with one name the later stands.
unfoldable pub definitions_of :
    List Parameter → List (String × Parameter) → List (String × Parameter)
definitions_of [] m = m
definitions_of (p ∷ ps) m = definitions_of ps (put p.name p m)

unfoldable pub defaults_of : List Parameter → Params → Params
defaults_of [] m = m
defaults_of (p ∷ ps) m = defaults_of ps (if p.default == "" then m else put p.name p.default m)

unfoldable pub check_known : List (String × Parameter) → Params → Checked ParamError (Unit {0})
check_known definitions [] = accepted tt
check_known definitions ((name, value) ∷ rest) = elim (lookup name definitions) [
  | none ↦ rejected (unknown_parameter name)
  | some p ↦ check_known definitions rest
]

abbrev pub of_parameter : String → Checked ValueError (Unit {0}) → Checked ParamError (Unit {0})
of_parameter name (accepted u) = accepted u
of_parameter name (rejected e) = rejected (invalid name e)

-- The check of one value; a parameter that is not defined has been refused before.
unfoldable pub check_value :
    Texts → List (String × Parameter) → String → String → Checked ParamError (Unit {0})
check_value t definitions name value = elim (lookup name definitions) [
  | none ↦ rejected (unknown_parameter name)
  | some p ↦ of_parameter name (validate_parameter_value t p value)
]

unfoldable pub check_values :
    Texts → List (String × Parameter) → Params → Params → Checked ParamError Params
check_values t definitions [] resolved = accepted resolved
check_values t definitions ((name, value) ∷ rest) resolved =
    check_value t definitions name value
    >> check_values t definitions rest (put name value resolved)

abbrev pub value_of : Params → String → String
value_of resolved name = elim (lookup name resolved) [ none ↦ "" | some v ↦ v ]

unfoldable pub check_required : Texts → Params → List Parameter → Checked ParamError (Unit {0})
check_required t resolved [] = accepted tt
check_required t resolved (p ∷ ps) =
    reject_if (p.required && t.trim (value_of resolved p.name) == "") (required_missing p.name)
    >> check_required t resolved ps

unfoldable pub check_tokens : Params → List Piece → Checked ParamError (Unit {0})
check_tokens resolved [] = accepted tt
check_tokens resolved (chunk c ∷ ps) = check_tokens resolved ps
check_tokens resolved (token name ∷ ps) = elim (lookup name resolved) [
  | none ↦ rejected (token_missing name)
  | some v ↦ check_tokens resolved ps
]

unfoldable pub validate_params : Texts → Runbook → Params → Checked ParamError Params
validate_params t rb params = do
  let definitions = definitions_of rb.parameters []
  check_known definitions params
  resolved ← check_values t definitions params (defaults_of rb.parameters [])
  check_required t resolved rb.parameters
  check_tokens resolved (pieces rb.command)
  accepted resolved
