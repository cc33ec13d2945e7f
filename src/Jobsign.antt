-- ===== src/Jobsign.antt =====
-- packages/jobsign/jobsign.go: the signature of a dispatched job. Texts are lists of bytes. HMAC-SHA256,
-- base64, JSON and strings.TrimSpace are the fields of a scheme.
pub mod Authentic
use vpstools.Base.{
  ℕ, ◌≡◌, ◌≢◌, String, Bool, true, false, not, ◌&&◌, ◌||◌, Option, none, some, List, [], ◌∷◌, ◌++◌,
  eqb, ltb, length, if◌then◌else◌,
}
use vpstools.Base.Int.{ℤ}

-- The fields that determine what a runner executes.
pub record Claims : Type 0 where
  pub execution_id : String
  pub target_id : String
  pub lease_id : String
  pub runner_id : String
  pub command : String
  pub host : String
  pub port : ℤ
  pub user : String
  pub timeout : ℤ
  pub credential_ref : String
  pub host_key_fingerprint : String
  pub expires_at_unix : ℕ

abbrev pub Bytes : Type 0
Bytes = List ℕ

pub record Scheme : Type 0 where
  pub trim : Bytes → Bytes
  pub marshal : Claims → Option Bytes
  -- by the key, of the payload
  pub mac : Bytes → Bytes → Bytes
  pub encode : Bytes → Bytes
  pub decode : Bytes → Option Bytes

pub data SignError : Type 0 where
  no_key too_short malformed mismatch expired unserialisable : SignError

pub data Outcome (A : Type 0) : Type 0 where
  done : A → Outcome A
  failed : SignError → Outcome A

-- The texts "v1", "v1:" and "v1\n".
abbrev pub version : Bytes
version = 118 ∷ 49 ∷ []

abbrev pub prefix : Bytes
prefix = 118 ∷ 49 ∷ 58 ∷ []

abbrev pub min_key_length : ℕ
min_key_length = 32

abbrev pub same_bytes : Bytes → Bytes → Bool
same_bytes [] [] = true
same_bytes (x ∷ xs) (y ∷ ys) = eqb x y && same_bytes xs ys
same_bytes _ _ = false

abbrev is_empty : Bytes → Bool
is_empty [] = true
is_empty (b ∷ bs) = false

-- strings.Cut at ':', with nothing when there is none.
unfoldable pub cut : Bytes → Option (Bytes × Bytes)
cut [] = none
cut (b ∷ bs) =
    let rest = cut bs in
    if eqb b 58 then some ([], bs) else (elim rest [ none ↦ none | some (l, r) ↦ some (b ∷ l, r) ])

-- The key of a signer; NewSigner stores the trimmed text.
unfoldable pub new_signer : Scheme → Bytes → Outcome Bytes
new_signer s key =
    let trimmed = s.trim key in
    if is_empty trimmed
    then failed no_key
    else if ltb (length trimmed) min_key_length
    then failed too_short
    else done trimmed

unfoldable pub canonical : Scheme → Claims → Option Bytes
canonical s c = elim (s.marshal c) [ none ↦ none | some p ↦ some (118 ∷ 49 ∷ 10 ∷ p) ]

unfoldable pub sign : Scheme → Bytes → Claims → Outcome Bytes
unfolding canonical
sign s key c = if is_empty key then failed no_key else (elim (canonical s c) [
  | none ↦ failed unserialisable
  | some payload ↦ done (prefix ++ s.encode (s.mac key payload))
])

-- The checks on the claims once the signature has been decoded.
unfoldable pub check_claims : Scheme → Bytes → Claims → ℕ → Bytes → Outcome (Unit {0})
check_claims s key c now provided = elim (canonical s c) [
  | none ↦ failed unserialisable
  | some payload ↦
      if not (same_bytes (s.mac key payload) provided)
      then failed mismatch
      else if not (eqb c.expires_at_unix 0) && ltb c.expires_at_unix now
      then failed expired
      else done tt
]

unfoldable pub check_parts :
    Scheme → Bytes → Claims → ℕ → Option (Bytes × Bytes) → Outcome (Unit {0})
check_parts s key c now none = failed malformed
check_parts s key c now (some (v, encoded)) =
    if not (same_bytes v version) || is_empty encoded
    then failed malformed
    else (elim (s.decode encoded) [
      | none ↦ failed malformed
      | some provided ↦ check_claims s key c now provided
    ])

unfoldable pub verify : Scheme → Bytes → Claims → Bytes → ℕ → Outcome (Unit {0})
verify s key c signature now =
    if is_empty key then failed no_key else check_parts s key c now (cut (s.trim signature))
