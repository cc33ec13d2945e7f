-- ===== src/Runbooks/Types.antt =====
-- The types of packages/runbooks/runbook.go, without the fields that only the display and the YAML
-- reader use (output, rollback, verification).
use vpstools.Base.{◌≡◌, refl, String, Bool, true, false, List}
use vpstools.Base.Int.{ℤ}

pub record Metadata : Type 0 where
  pub name : String
  pub title : String
  pub description : String
  pub risk : String
  pub version : ℤ

pub record Parameter : Type 0 where
  pub name : String
  pub type : String
  pub default : String
  pub allowed_values : List String
  pub required : Bool

pub record TargetRules : Type 0 where
  pub allowed_tags : List (String × String)
  pub allowed_environments : List String
  pub allowed_servers : List String

pub record ApprovalRule : Type 0 where
  pub required : Bool
  pub environment : String

pub record Runbook : Type 0 where
  pub api_version : String
  pub kind : String
  pub metadata : Metadata
  pub parameters : List Parameter
  pub targets : TargetRules
  pub approval : ApprovalRule
  pub timeout_seconds : ℤ
  pub concurrency : ℤ
  pub command : String

-- strings.ToLower and strings.TrimSpace.
pub record Texts : Type 0 where
  pub lower : String → String
  pub trim : String → String

pub data Checked (E A : Type 0) : Type 0 where
  accepted : A → Checked E A
  rejected : E → Checked E A

infixl 5 ◌>>=◌ ◌>>◌
abbrev pub ◌>>=◌ : {E A B : Type 0} → Checked E A → (A → Checked E B) → Checked E B
accepted a >>= f = f a
rejected e >>= f = rejected e

abbrev pub ◌>>◌ : {E B : Type 0} → Checked E (Unit {0}) → Checked E B → Checked E B
m >> k = m >>= λ _. k

-- `if test { return the error }`
abbrev pub reject_if : {E : Type 0} → Bool → E → Checked E (Unit {0})
reject_if true e = rejected e
reject_if false e = accepted tt

-- What a chain of checks that accepts has accepted on the way.
pub >>=-accepted :
    {E A B : Type 0} (m : Checked E A) (f : A → Checked E B) {b : B}
    → (m >>= f) ≡ accepted b
    → (a : A) × (m ≡ accepted a) × (f a ≡ accepted b)
>>=-accepted (accepted a) f h = (a, refl, h)
>>=-accepted (rejected e) f h = cc

-- A check that lets pass, and what follows it.
pub reject_if-passed :
    {E B : Type 0} (test : Bool) (e : E) (k : Checked E B) {b : B}
    → (reject_if test e >> k) ≡ accepted b
    → (test ≡ false) × (k ≡ accepted b)
reject_if-passed true e k h = cc
reject_if-passed false e k h = (refl, h)
