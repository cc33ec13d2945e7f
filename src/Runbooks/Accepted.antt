-- ===== src/Runbooks/Accepted.antt =====
-- What a successful ValidateParams promises (packages/runbooks/runbook.go).
use vpstools.Base.{
  ◌≡◌, ◌≢◌, refl, ap, sym, subst, String, true, false, none, some, List, [], ◌∷◌, ◌==◌, eq_iff, All,
  All-of_Has, All-Has, Has, arith,
}
use vpstools.Base.Assoc.{lookup, put, Holds, Holds-nil, lookup-put}
use vpstools.Runbooks.Types.{Parameter, Runbook, Texts, accepted, >>=-accepted}
use vpstools.Runbooks.Values.{validate_parameter_value}
use vpstools.Runbooks.Validate.{validate, validate_parameters}
use vpstools.Runbooks.Params.{
  Params, Piece, chunk, token, pieces, value_of, definitions_of, defaults_of, check_known,
  check_value, check_values, check_required, check_tokens, validate_params,
}
use vpstools.Runbooks.Resolved.{
  IsChecked, good_defaults, defaults-Holds, definitions-Holds, check_value_sound,
  check_values-Holds,
}

-- A Go map has each key once.
abbrev pub IsMap : Params → Type 0
IsMap [] = Unit
IsMap ((name, value) ∷ rest) = (lookup name rest ≡ none) × IsMap rest

abbrev HasValue : Texts → Params → Parameter → Type 0
HasValue t r p = p.required ≡ true → (t.trim (value_of r p.name) == "") ≡ false

abbrev pub IsBound : Params → Piece → Type 0
IsBound r (chunk c) = Unit
IsBound r (token name) = lookup name r ≢ none

pub record IsResolved (t : Texts) (rb : Runbook) (params r : Params) : Type 0 where
  -- the supplied values are taken
  pub supplied :
      (name value : String) → lookup name params ≡ some value → lookup name r ≡ some value
  -- every value, supplied or by default, passes the check of its parameter
  pub checked : Holds (IsChecked t rb.parameters) r
  pub required : All (HasValue t r) rb.parameters
  -- no token of the command is without a value
  pub bound : All (IsBound r) (pieces rb.command)

untouched :
    (t : Texts) (definitions : List (String × Parameter)) (params m : Params) {r : Params}
    (n : String)
    → check_values t definitions params m ≡ accepted r
    → lookup n params ≡ none
    → lookup n r ≡ lookup n m
unfolding check_values lookup
untouched t definitions [] m {r} n h e = let same : m ≡ r = cc h in ap (lookup n) (sym same)
untouched t definitions ((name, value) ∷ rest) m n h e =
    let (u, first, later) = >>=-accepted (check_value t definitions name value) _ h in
    ground
      (arith, untouched t definitions rest (put name value m) n later, lookup-put name n value m)

supplied-lookup :
    (t : Texts) (definitions : List (String × Parameter)) (params m : Params) {r : Params}
    (n v : String)
    → IsMap params
    → check_values t definitions params m ≡ accepted r
    → lookup n params ≡ some v
    → lookup n r ≡ some v
unfolding check_values lookup
supplied-lookup t definitions [] m n v distinct h e = cc e
supplied-lookup t definitions ((name, value) ∷ rest) m n v distinct h e =
    let (u, first, later) = >>=-accepted (check_value t definitions name value) _ h in
    ground (
      arith,
      eq_iff name n,
      supplied-lookup t definitions rest (put name value m) n v distinct.1 later,
      untouched t definitions rest (put name value m) n later,
      lookup-put name n value m,
    )

check_required_sound :
    (t : Texts) (r : Params) (ps : List Parameter)
    → check_required t r ps ≡ accepted tt
    → All (HasValue t r) ps
unfolding check_required
check_required_sound t r [] h = tt
check_required_sound t r (p ∷ ps) h = ground (arith, check_required_sound t r ps)

check_tokens_sound :
    (r : Params) (ps : List Piece) → check_tokens r ps ≡ accepted tt → All (IsBound r) ps
unfolding check_tokens
check_tokens_sound r [] h = tt
check_tokens_sound r (chunk c ∷ ps) h = (tt, check_tokens_sound r ps h)
check_tokens_sound r (token name ∷ ps) h = ground (arith, check_tokens_sound r ps)

accepted_parameters :
    (t : Texts) (rb rb' : Runbook)
    → validate t rb ≡ accepted rb'
    → validate_parameters t [] rb'.parameters ≡ accepted tt
unfolding validate
accepted_parameters t rb rb' h = ground arith

-- For a runbook that Validate accepts and a map of values that ValidateParams accepts: the supplied
-- values are taken, every value that is resolved (supplied or by default) passes the check of a
-- parameter of its name, every required parameter has a value that is not blank, and every token of the
-- command has a value.
pub validate_params-IsResolved :
    (t : Texts) (rb rb' : Runbook) (params r : Params)
    → IsMap params
    → validate t rb ≡ accepted rb'
    → validate_params t rb' params ≡ accepted r
    → IsResolved t rb' params r
unfolding validate_params
validate_params-IsResolved t rb rb' params r distinct valid h =
    let definitions = definitions_of rb'.parameters [] in
    let goods = good_defaults t [] rb'.parameters (accepted_parameters t rb rb' valid) in
    let (u, known, h1) = >>=-accepted (check_known definitions params) _ h in
    let (r', values, h2) =
      >>=-accepted (check_values t definitions params (defaults_of rb'.parameters [])) _ h1 in
    let (u', required, h3) = >>=-accepted (check_required t r' rb'.parameters) _ h2 in
    let (u'', tokens, h4) = >>=-accepted (check_tokens r' (pieces rb'.command)) _ h3 in
    let same : r' ≡ r = cc h4 in
    subst (IsResolved t rb' params) same (record {
      supplied = λ n v. supplied-lookup t definitions params _ n v distinct values;
      checked =
          check_values-Holds t definitions params _
            (λ n v c. defined n v (check_value_sound t definitions n v c)) values
            (defaults-Holds rb'.parameters []
              (All-of_Has _ rb'.parameters
                (λ p m used. (p, m, refl, All-Has _ rb'.parameters p goods m used)))
              (Holds-nil (IsChecked t rb'.parameters)));
      required = check_required_sound t r' rb'.parameters required;
      bound = check_tokens_sound r' (pieces rb'.command) tokens;
    })
  where
    known_names :
        Holds (λ n p. Has p rb'.parameters × (p.name ≡ n)) (definitions_of rb'.parameters [])
    known_names =
        definitions-Holds rb'.parameters [] (All-of_Has _ rb'.parameters (λ p m. (m, refl)))
          (Holds-nil (λ n p. Has p rb'.parameters × (p.name ≡ n)))

    defined :
        (n v : String)
        → (p : Parameter) × (lookup n (definitions_of rb'.parameters []) ≡ some p)
          × (validate_parameter_value t p v ≡ accepted tt)
        → IsChecked t rb'.parameters n v
    defined n v (p, found, passes) = let (m, named) = known_names n p found in (p, m, named, passes)
