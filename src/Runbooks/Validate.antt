-- ===== src/Runbooks/Validate.antt =====
-- Validate, EnvironmentAllowed and NeedsApproval (packages/runbooks/runbook.go).
use vpstools.Base.{
  String, Bool, true, not, ◌&&◌, ◌||◌, List, [], ◌∷◌, ◌==◌, ltb, any, length, if◌then◌else◌,
}
use vpstools.Base.Int.{ltb_ℤ}
use vpstools.Runbooks.Types.{
  Parameter, Runbook, Texts, Checked, accepted, rejected, reject_if, ◌>>◌,
}
use vpstools.Runbooks.Values.{
  ValueError, valid_name, valid_parameter_name, validate_parameter_value,
}

-- The field that is at fault, and why.
pub data ValidationError : Type 0 where
  bad_api_version bad_kind name_missing bad_name title_missing command_missing bad_timeout
        bad_concurrency bad_risk :
      ValidationError
  bad_parameter_name : String → ValidationError
  parameter_twice : String → ValidationError
  bad_type : String → ValidationError
  allowed_values_need_enum : String → ValidationError
  bad_default : String → ValueError → ValidationError

abbrev is_known_type : String → Bool
is_known_type s =
    s == ""
    || (s == "string" || (s == "integer" || (s == "number" || (s == "boolean" || s == "enum"))))

unfoldable pub validate_default :
    String → Checked ValueError (Unit {0}) → Checked ValidationError (Unit {0})
validate_default name (accepted u) = accepted u
validate_default name (rejected e) = rejected (bad_default name e)

-- One round of the loop over the parameters; `seen` are the names of the earlier ones.
unfoldable pub validate_parameter :
    Texts → List String → Parameter → Checked ValidationError (Unit {0})
unfolding validate_default
validate_parameter t seen p = do
  reject_if (not (valid_parameter_name p.name)) (bad_parameter_name p.name)
  reject_if (any (λ n. n == p.name) seen) (parameter_twice p.name)
  reject_if (not (is_known_type (t.lower p.type))) (bad_type p.name)
  reject_if (ltb 0 (length p.allowed_values) && not (t.lower p.type == "enum"))
      (allowed_values_need_enum p.name)
  if p.default == ""
      then accepted tt
      else validate_default p.name (validate_parameter_value t p p.default)

unfoldable pub validate_parameters :
    Texts → List String → List Parameter → Checked ValidationError (Unit {0})
validate_parameters t seen [] = accepted tt
validate_parameters t seen (p ∷ ps) =
    validate_parameter t seen p >> validate_parameters t (p.name ∷ seen) ps

abbrev is_known_risk : String → Bool
is_known_risk r = r == "low" || (r == "medium" || (r == "high" || r == "critical"))

abbrev pub with_risk : Runbook → Runbook
with_risk rb = record rb {
  metadata = record rb.metadata {
    risk = if rb.metadata.risk == "" then "medium" else rb.metadata.risk;
  };
}

-- `Validate` fills in a missing risk in place: the runbook is returned with it.
unfoldable pub validate : Texts → Runbook → Checked ValidationError Runbook
validate t rb = do
  reject_if (not (rb.api_version == "vps-tools.io/v1")) bad_api_version
  reject_if (not (rb.kind == "Runbook")) bad_kind
  reject_if (rb.metadata.name == "") name_missing
  reject_if (not (valid_name rb.metadata.name)) bad_name
  reject_if (rb.metadata.title == "") title_missing
  reject_if (rb.command == "") command_missing
  reject_if (ltb_ℤ rb.timeout_seconds 0) bad_timeout
  reject_if (ltb_ℤ rb.concurrency 0) bad_concurrency
  reject_if (not (is_known_risk (with_risk rb).metadata.risk)) bad_risk
  validate_parameters t [] rb.parameters
  accepted (with_risk rb)

unfoldable pub environment_allowed : Runbook → String → Bool
environment_allowed rb env =
    if ltb 0 (length rb.targets.allowed_environments)
    then any (λ e. e == env || e == "*") rb.targets.allowed_environments
    else true

unfoldable pub needs_approval : Runbook → String → Bool
needs_approval rb env =
    rb.approval.required
    && (rb.approval.environment == env
        || (rb.approval.environment == "*" || rb.approval.environment == ""))
