-- ===== src/SignIn/Settings.antt =====
-- productionModeEnabled, devAuthEnabled, secureStringEqual, bearerToken and validateAuthConfig
-- (apps/api/auth.go), and ProductionMode (packages/config/config.go).
use Prim.Native.String.{len, slice}
use vpstools.Base.{
  String, Bool, true, false, not, ◌&&◌, ◌||◌, Option, none, some, List, [], ◌∷◌, ◌==◌, any, ltb,
  if◌then◌else◌,
}

-- strings.TrimSpace, strings.ToLower, strings.EqualFold, and LIKE of SQL, the pattern last.
pub record Words : Type 0 where
  pub trim : String → String
  pub lower : String → String
  pub equal_fold : String → String → Bool
  pub like : String → String → Bool

-- The environment of the process: VPS_DEV_AUTH, the values of VPS_ENV, APP_ENV and ENVIRONMENT, and
-- VPS_WEB_SHARED_SECRET.
pub record Settings : Type 0 where
  pub dev_auth : String
  pub environments : List String
  pub shared_secret : String

abbrev development_names : List String
development_names = "dev" ∷ "development" ∷ "local" ∷ "test" ∷ "testing" ∷ "ci" ∷ []

-- The first value that is not blank decides; without one it is production.
unfoldable pub production_mode : Words → List String → Bool
production_mode w [] = true
production_mode w (v ∷ vs) =
    let rest = production_mode w vs in
    let value = w.lower (w.trim v) in
    if value == "" then rest else not (any (λ name. name == value) development_names)

unfoldable pub dev_auth_enabled : Words → Settings → Bool
dev_auth_enabled w s =
    w.equal_fold (w.trim s.dev_auth) "true" && not (production_mode w s.environments)

-- Equality of texts that are not empty; the comparison in constant time is an equality.
unfoldable pub secure_string_equal : String → String → Bool
secure_string_equal got want = if got == "" || want == "" then false else got == want

unfoldable pub bearer_token : Words → String → String
bearer_token w header =
    let value = w.trim header in
    if ltb (len value) 7 || not (w.equal_fold (slice value 0 7) "Bearer ")
    then ""
    else w.trim (slice value 7 (len value))

-- The error, if there is one.
unfoldable pub validate_auth_config : Words → Settings → Option String
validate_auth_config w s =
    if not (production_mode w s.environments)
    then none
    else if dev_auth_enabled w s
    then some "VPS_DEV_AUTH must be disabled in production"
    else if ltb (len s.shared_secret) 32
    then some "VPS_WEB_SHARED_SECRET must be at least 32 characters in production"
    else none
