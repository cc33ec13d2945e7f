-- ===== src/Runbooks/Render.antt =====
-- RenderCommand and shellQuote (packages/runbooks/runbook.go).
use Prim.Native.Char.{code}
use Prim.Native.String.{◌++◌}
use vpstools.Base.{String, List, [], ◌∷◌, eqb, if◌then◌else◌}
use vpstools.Runbooks.Types.{Runbook, Texts, Checked, accepted, ◌>>=◌}
use vpstools.Runbooks.Params.{
  Params, ParamError, Piece, chunk, token, pieces, value_of, validate_params,
}

-- strings.ReplaceAll(value, "'", "'\\''").
unfoldable pub escape_quotes : String → String
escape_quotes String.[] = ""
escape_quotes (String.◌∷◌ c s) =
    let rest = escape_quotes s in if eqb (code c) 39 then "'\\''" ++ rest else String.◌∷◌ c rest

unfoldable pub shell_quote : String → String
unfolding escape_quotes
shell_quote value = "'" ++ (escape_quotes value ++ "'")

-- `ReplaceAllStringFunc` over the pieces of a command.
unfoldable pub render : Params → List Piece → String
render resolved [] = ""
render resolved (chunk c ∷ ps) = String.◌∷◌ c (render resolved ps)
render resolved (token name ∷ ps) = shell_quote (value_of resolved name) ++ render resolved ps

unfoldable pub render_command : Texts → Runbook → Params → Checked ParamError String
unfolding render
render_command t rb params = do
  resolved ← validate_params t rb params
  accepted (render resolved (pieces rb.command))
