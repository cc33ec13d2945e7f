-- ===== src/Servers/Identity.antt =====
-- validateSSHIdentity and sqlNullOptionalString (apps/api/servers.go). `trim` is strings.TrimSpace.
use Prim.Native.String.{len, slice}
use text.Mathlib.Text.{starts_with}
use vpstools.Base.{
  ℕ, String, Bool, not, ◌&&◌, ◌||◌, Option, none, some, ◌==◌, eqb, leb, if◌then◌else◌,
}
use vpstools.Runbooks.Values.{every}

abbrev is_alphanumeric : ℕ → Bool
is_alphanumeric c =
    (leb b'0' c && leb c b'9') || ((leb b'A' c && leb c b'Z') || (leb b'a' c && leb c b'z'))

-- `^SHA256:[A-Za-z0-9+/]{43}$`
unfoldable pub is_fingerprint : String → Bool
is_fingerprint s =
    starts_with s "SHA256:"
    && (eqb (len s) 50
        && every (λ c. is_alphanumeric c || (eqb c b'+' || eqb c b'/')) (slice s 7 (len s)))

-- `^[A-Za-z0-9_-]{1,128}$`
unfoldable pub is_credential_ref : String → Bool
is_credential_ref s =
    leb 1 (len s)
    && (leb (len s) 128 && every (λ c. is_alphanumeric c || (eqb c b'_' || eqb c b'-')) s)

-- `validateSSHIdentity`: the error, if there is one.
unfoldable pub validate_ssh_identity : (String → String) → String → String → Option String
validate_ssh_identity trim credential_ref fingerprint =
    if not (trim credential_ref == "") && not (is_credential_ref (trim credential_ref))
    then some "ssh_credential_ref must contain only letters, digits, hyphen, or underscore"
    else if not (trim fingerprint == "") && not (is_fingerprint (trim fingerprint))
    then some
        "ssh_host_key_fingerprint must be an OpenSSH SHA256 fingerprint, for example SHA256:abc..."
    else none

-- `derefOrEmpty`.
abbrev pub deref_or_empty : Option String → String
deref_or_empty none = ""
deref_or_empty (some v) = v

-- `sqlNullOptionalString` in `COALESCE(?, column)`: a field that is left out keeps the column, and an
-- empty one clears it.
unfoldable pub coalesce_field : (String → String) → Option String → Option String → Option String
coalesce_field trim none old = old
coalesce_field trim (some v) old = if trim v == "" then some "" else some (trim v)
