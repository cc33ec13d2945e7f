-- ===== src/Base/Text.antt =====
-- Equality of texts is decidable.
use vpstools.Base.{String, inl, inr, ◌==◌, eq_iff, Bool-cases}

pub String-discrete : Discrete String
String-discrete a b = elim (Bool-cases (a == b)) [
  | inl same ↦ yes ((eq_iff a b).0 same)
  | inr differ ↦ no (λ p. cc ((eq_iff a b).1 p))
]
