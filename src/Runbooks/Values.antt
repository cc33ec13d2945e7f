-- ===== src/Runbooks/Values.antt =====
-- validName, validParameterName and validateParameterValue (packages/runbooks/runbook.go).
use Prim.Native.Char.{code}
use vpstools.Base.{
  ℕ, suc, String, Bool, true, false, not, ◌&&◌, ◌||◌, ◌==◌, ltb, leb, eqb, any, length,
  if◌then◌else◌,
}
use vpstools.Runbooks.Types.{Parameter, Texts, Checked, accepted, reject_if, ◌>>◌}

abbrev pub is_digit : ℕ → Bool
is_digit c = leb b'0' c && leb c b'9'

abbrev is_letter : ℕ → Bool
is_letter c = (leb b'a' c && leb c b'z') || (leb b'A' c && leb c b'Z')

-- The characters that the token ${…} of a command may have first, and later.
abbrev pub is_name_start : ℕ → Bool
is_name_start c = is_letter c || eqb c b'_'

abbrev pub is_name_char : ℕ → Bool
is_name_char c = is_name_start c || is_digit c

unfoldable pub every : (ℕ → Bool) → String → Bool
every p String.[] = true
every p (String.◌∷◌ c s) = p (code c) && every p s

unfoldable pub valid_name : String → Bool
unfolding every
valid_name s =
    not (s == "") && every (λ c. (leb b'a' c && leb c b'z') || (is_digit c || eqb c b'-')) s

unfoldable pub valid_parameter_name : String → Bool
unfolding every
valid_parameter_name String.[] = false
valid_parameter_name (String.◌∷◌ c s) = is_name_start (code c) && every is_name_char s

-- The loop over an integer: a sign may stand first only.
unfoldable pub integer_chars : String → Bool
unfolding every
integer_chars String.[] = true
integer_chars (String.◌∷◌ c s) = (is_digit (code c) || eqb (code c) b'-') && every is_digit s

-- The loop over a number, and the dots that it counts.
unfoldable pub number_chars : String → Bool
unfolding every
number_chars String.[] = true
number_chars (String.◌∷◌ c s) =
    (eqb (code c) b'.' || (is_digit (code c) || eqb (code c) b'-'))
    && every (λ d. eqb d b'.' || is_digit d) s

unfoldable pub dots : String → ℕ
dots String.[] = 0
dots (String.◌∷◌ c s) = let rest = dots s in if eqb (code c) b'.' then suc rest else rest

pub data ValueError : Type 0 where
  not_integer not_number not_boolean not_allowed : ValueError

-- The switch over the type, in lower case. Another type than these is accepted here, as in the code.
unfoldable pub validate_type : String → String → Checked ValueError (Unit {0})
unfolding integer_chars number_chars dots
validate_type type value =
    if type == "integer"
    then reject_if (not (integer_chars value) || (value == "" || value == "-")) not_integer
    else if type == "number"
    then reject_if
        (not (number_chars value) || (value == "" || (value == "-" || ltb 1 (dots value))))
        not_number
    else if type == "boolean"
    then reject_if (not (value == "true") && not (value == "false")) not_boolean
    else accepted tt

unfoldable pub validate_parameter_value : Texts → Parameter → String → Checked ValueError (Unit {0})
validate_parameter_value t definition value = do
  validate_type (t.lower definition.type) value
  reject_if
      (ltb 0 (length definition.allowed_values)
        && not (any (λ candidate. value == candidate) definition.allowed_values))
      not_allowed
