-- ===== src/Examples/Runbooks.antt =====
-- The commands of runbooks at concrete inputs.
use Prim.Native.String.{◌++◌ as text_append}
use vpstools.Base.{◌≡◌, refl, String, true, not, [], ◌∷◌, eqb}
use vpstools.Base.Int.{pos}
use vpstools.Base.Assoc.{lookup, put}
use vpstools.Runbooks.Types.{Runbook, Parameter, Texts, accepted}
use vpstools.Runbooks.Values.{
  every, valid_name, valid_parameter_name, validate_type, validate_parameter_value,
}
use vpstools.Runbooks.Validate.{validate, validate_parameter, validate_parameters}
use vpstools.Runbooks.Params.{
  Params, pieces, check_known, check_value, check_values, check_required, check_tokens,
  definitions_of, defaults_of, validate_params,
}
use vpstools.Runbooks.Render.{render, render_command, shell_quote}
use vpstools.Runbooks.Shell.{read, fill, read_template, all_bare, blank, single, word, step}
use vpstools.Runbooks.Quoting.{render_command-reads, single_quoted_value}
use vpstools.Runbooks.Accepted.{IsResolved, validate_params-IsResolved}

abbrev pub texts : Texts
texts = record { lower = λ s. s; trim = λ s. s }

abbrev service : Parameter
service = record {
  name = "service";
  type = "string";
  default = "";
  allowed_values = [];
  required = true;
}

abbrev pub restart : Runbook
restart = record {
  api_version = "vps-tools.io/v1";
  kind = "Runbook";
  metadata = record {
    name = "restart";
    title = "Restart";
    description = "";
    risk = "high";
    version = pos 1;
  };
  parameters = service ∷ [];
  targets = record { allowed_tags = []; allowed_environments = []; allowed_servers = [] };
  approval = record { required = true; environment = "*" };
  timeout_seconds = pos 60;
  concurrency = pos 0;
  command = "systemctl restart ${service}";
}

abbrev pub hostile : Params
hostile = ("service", "a'; rm") ∷ []

accepted_params : validate_params texts restart hostile ≡ accepted hostile
unfolding validate_params check_known check_value check_values check_required check_tokens
    definitions_of defaults_of validate_parameter_value validate_type pieces lookup put
accepted_params = refl

accepted_runbook : validate texts restart ≡ accepted restart
unfolding validate validate_parameters validate_parameter valid_name valid_parameter_name every
accepted_runbook = refl

validate_params-IsResolved_example : IsResolved texts restart hostile hostile
unfolding lookup
validate_params-IsResolved_example =
    validate_params-IsResolved texts restart restart hostile hostile (refl, tt) accepted_runbook
      accepted_params

bare : all_bare blank (pieces restart.command) ≡ true
unfolding all_bare step pieces
bare = refl

renders : render_command texts restart hostile ≡ accepted "systemctl restart 'a'\\''; rm'"
unfolding render_command validate_params check_known check_value check_values check_required
    check_tokens definitions_of defaults_of validate_parameter_value validate_type pieces lookup put
    render shell_quote
renders = refl

render_command-reads_example :
    (r : Params) × (validate_params texts restart hostile ≡ accepted r)
    × (read blank "systemctl restart 'a'\\''; rm'"
        ≡ fill r (read_template blank (pieces restart.command)))
render_command-reads_example =
    render_command-reads texts restart hostile "systemctl restart 'a'\\''; rm'" bare renders

plain_value : every (λ c. not (eqb c 39)) "$(reboot)" ≡ true
unfolding every
plain_value = refl

active_value :
    read single (text_append (shell_quote "$(reboot)") "'")
    ≡ read word (text_append "$(reboot)" (String.◌∷◌ "'" "'"))
active_value = single_quoted_value "$(reboot)" "'" plain_value
