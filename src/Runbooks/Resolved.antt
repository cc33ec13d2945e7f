-- ===== src/Runbooks/Resolved.antt =====
-- What ValidateParams resolves for a runbook that Validate has accepted (packages/runbooks/runbook.go).
use vpstools.Base.{
  ◌≡◌, refl, subst, String, false, inl, inr, Option, none, some, List, [], ◌∷◌, ◌==◌, Bool-cases,
  All, Has, arith,
}
use vpstools.Base.Assoc.{lookup, put, Holds, Holds-put}
use vpstools.Runbooks.Types.{Parameter, Texts, Checked, accepted, rejected, >>=-accepted}
use vpstools.Runbooks.Values.{ValueError, validate_parameter_value}
use vpstools.Runbooks.Validate.{validate_parameters, validate_parameter, validate_default}
use vpstools.Runbooks.Params.{
  Params, unknown_parameter, of_parameter, definitions_of, defaults_of, check_value, check_values,
}

-- The value passes the check of a parameter of that name.
abbrev pub IsChecked : Texts → List Parameter → String → String → Type 0
IsChecked t ps name value =
    (p : Parameter) × Has p ps
    × (p.name ≡ name)
    × (validate_parameter_value t p value ≡ accepted tt)

-- A default that is used passes the check of its parameter.
abbrev pub HasGoodDefault : Texts → Parameter → Type 0
HasGoodDefault t p =
    (p.default == "") ≡ false → validate_parameter_value t p p.default ≡ accepted tt

good_default :
    (t : Texts) (seen : List String) (p : Parameter)
    → validate_parameter t seen p ≡ accepted tt
    → HasGoodDefault t p
unfolding validate_parameter validate_default
good_default t seen p h used = ground arith

pub good_defaults :
    (t : Texts) (seen : List String) (ps : List Parameter)
    → validate_parameters t seen ps ≡ accepted tt
    → All (HasGoodDefault t) ps
unfolding validate_parameters
good_defaults t seen [] h = tt
good_defaults t seen (p ∷ ps) h =
    let (u, first, rest) = >>=-accepted (validate_parameter t seen p) _ h in
    (good_default t seen p first, good_defaults t (p.name ∷ seen) ps rest)

pub defaults-Holds :
    {Q : String → String → Type 0} (ps : List Parameter) (m : Params)
    → All (λ p. (p.default == "") ≡ false → Q p.name p.default) ps
    → Holds Q m
    → Holds Q (defaults_of ps m)
unfolding defaults_of
defaults-Holds [] m hs h = h
defaults-Holds {Q} (p ∷ ps) m hs h = defaults-Holds ps _ hs.1 (elim (Bool-cases (p.default == "")) [
  | inl same ↦ rw same h
  | inr other ↦ rw other (Holds-put Q p.name p.default m (hs.0 other) h)
])

pub definitions-Holds :
    {Q : String → Parameter → Type 0} (ps : List Parameter) (m : List (String × Parameter))
    → All (λ p. Q p.name p) ps
    → Holds Q m
    → Holds Q (definitions_of ps m)
unfolding definitions_of
definitions-Holds [] m hs h = h
definitions-Holds {Q} (p ∷ ps) m hs h = definitions-Holds ps _ hs.1 (Holds-put Q p.name p m hs.0 h)

-- A value that check_value accepts passes the check of the definition of its name.
pub check_value_sound :
    (t : Texts) (definitions : List (String × Parameter)) (name value : String)
    → check_value t definitions name value ≡ accepted tt
    → (p : Parameter) × (lookup name definitions ≡ some p)
      × (validate_parameter_value t p value ≡ accepted tt)
unfolding check_value
check_value_sound t definitions name value h = go (lookup name definitions) refl h
  where
    passed :
        (c : Checked ValueError (Unit {0})) → of_parameter name c ≡ accepted tt → c ≡ accepted tt
    passed (accepted u) h = refl
    passed (rejected e) h = cc h

    go :
        (o : Option Parameter)
        → lookup name definitions ≡ o
        → (elim o [
          | none ↦ rejected (unknown_parameter name)
          | some p ↦ of_parameter name (validate_parameter_value t p value)
        ])
          ≡ accepted tt
        → (p : Parameter) × (lookup name definitions ≡ some p)
          × (validate_parameter_value t p value ≡ accepted tt)
    go none e h = cc h
    go (some p) e h = (p, e, passed _ h)

pub check_values-Holds :
    {Q : String → String → Type 0} (t : Texts) (definitions : List (String × Parameter))
    (params resolved : Params) {r : Params}
    → ((name value : String) → check_value t definitions name value ≡ accepted tt → Q name value)
    → check_values t definitions params resolved ≡ accepted r
    → Holds Q resolved
    → Holds Q r
unfolding check_values
check_values-Holds {Q} t definitions [] resolved {r} q h holds =
    let same : resolved ≡ r = cc h in subst (Holds Q) same holds
check_values-Holds {Q} t definitions ((name, value) ∷ rest) resolved q h holds =
    let (u, first, later) = >>=-accepted (check_value t definitions name value) _ h in
    check_values-Holds t definitions rest (put name value resolved) q later
      (Holds-put Q name value resolved (q name value first) holds)
