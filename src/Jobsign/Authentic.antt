-- ===== src/Jobsign/Authentic.antt =====
-- What a job signature guarantees (packages/jobsign/jobsign.go).
use vpstools.Base.{
  ℕ, ◌≤◌, ◌≡◌, ◌≢◌, ◌⊎◌, refl, sym, ◌∙◌, ap, true, none, some, [], ◌∷◌, ◌++◌, arith, eqb, inl, inr,
  Bool-cases, Option-cases,
}
use vpstools.Jobsign.{
  Claims, Bytes, Scheme, done, prefix, same_bytes, cut, canonical, sign, check_claims, check_parts,
  verify,
}

same_bytes_refl : (l : Bytes) → same_bytes l l ≡ true
same_bytes_refl [] = refl
same_bytes_refl (x ∷ l) = ground (arith, same_bytes_refl l)

same_bytes-eq : (l m : Bytes) → same_bytes l m ≡ true → l ≡ m
same_bytes-eq [] [] h = refl
same_bytes-eq [] (y ∷ m) h = ground arith
same_bytes-eq (x ∷ l) [] h = ground arith
same_bytes-eq (x ∷ l) (y ∷ m) h = ground (arith, same_bytes-eq l m)

-- What the code relies on in base64 and TrimSpace: a signature has no space round it, and decodes.
pub record IsText (s : Scheme) : Type 0 where
  pub decodes : (b : Bytes) → s.decode (s.encode b) ≡ some b
  pub given : (b : Bytes) → s.encode b ≢ []
  pub trimmed : (b : Bytes) → s.trim (prefix ++ s.encode b) ≡ prefix ++ s.encode b

-- Two texts with one authentication code.
pub record Collision (s : Scheme) (key : Bytes) : Type 0 where
  pub left : Bytes
  pub right : Bytes
  pub differ : left ≢ right
  pub agree : s.mac key left ≡ s.mac key right

module _ (s : Scheme) (key : Bytes) where
  unserialised :
      (c : Claims) (signature : Bytes) → canonical s c ≡ none → sign s key c ≢ done signature
  unfolding sign
  unserialised c signature e h = ground (arith, e)

  signed_as :
      (c : Claims) (signature p : Bytes)
      → canonical s c ≡ some p
      → sign s key c ≡ done signature
      → (signature ≡ prefix ++ s.encode (s.mac key p)) × (key ≢ [])
  unfolding sign
  signed_as c signature p e h = (ground (arith, e), ground (arith, e))

  signed_with :
      (c : Claims) (signature : Bytes)
      → sign s key c ≡ done signature
      → (p : Bytes) × (canonical s c ≡ some p)
        × (signature ≡ prefix ++ s.encode (s.mac key p))
        × (key ≢ [])
  signed_with c signature h = elim (Option-cases (canonical s c)) [
    | inl e ↦ absurd (unserialised c signature e h)
    | inr (p, e) ↦ let parts = signed_as c signature p e h in (p, e, parts.0, parts.1)
  ]

  module _ (text : IsText s) where
    verified_against :
        (c : Claims) (now : ℕ) (b : Bytes)
        → key ≢ []
        → verify s key c (prefix ++ s.encode b) now ≡ check_claims s key c now b
    unfolding verify check_parts cut
    verified_against c now b k = ground (arith, k, text.decodes b, text.given b, text.trimmed b)

    checked :
        (c : Claims) (now : ℕ) (p b : Bytes)
        → canonical s c ≡ some p
        → check_claims s key c now b ≡ done tt
        → s.mac key p ≡ b
    unfolding check_claims
    checked c now p b e h = ground (arith, e, same_bytes-eq (s.mac key p) b)

    accepted :
        (c : Claims) (now : ℕ) (p : Bytes)
        → canonical s c ≡ some p
        → (c.expires_at_unix ≡ 0) ⊎ (now ≤ c.expires_at_unix)
        → check_claims s key c now (s.mac key p) ≡ done tt
    unfolding check_claims
    accepted c now p e fresh = ground (arith, e, same_bytes_refl (s.mac key p))

    -- A job that was signed is verified until it expires, and without end when it names no expiry.
    pub verify-sign :
        (c : Claims) (signature : Bytes) (now : ℕ)
        → sign s key c ≡ done signature
        → (c.expires_at_unix ≡ 0) ⊎ (now ≤ c.expires_at_unix)
        → verify s key c signature now ≡ done tt
    verify-sign c signature now h fresh =
        let w = signed_with c signature h in
        rw (w.2, verified_against c now (s.mac key w.0) w.3) (accepted c now w.0 w.1 fresh)

    not_unserialised :
        (c : Claims) (now : ℕ) (b : Bytes)
        → canonical s c ≡ none
        → check_claims s key c now b ≢ done tt
    unfolding check_claims
    not_unserialised c now b e h = ground (arith, e)

    fresh :
        (c : Claims) (now : ℕ) (p b : Bytes)
        → canonical s c ≡ some p
        → check_claims s key c now b ≡ done tt
        → (c.expires_at_unix ≡ 0) ⊎ (now ≤ c.expires_at_unix)
    unfolding check_claims
    fresh c now p b e h = elim (Bool-cases (eqb c.expires_at_unix 0)) [
      | inl zero ↦ inl (ground arith)
      | inr more ↦ inr (ground (arith, e))
    ]

    -- A runner that accepts claims under a signature made for other claims has not let them expire, and
    -- both claims have one JSON text, unless two texts have the same authentication code.
    pub verify-authentic :
        (c other : Claims) (signature : Bytes) (now : ℕ)
        → sign s key c ≡ done signature
        → verify s key other signature now ≡ done tt
        → ((other.expires_at_unix ≡ 0) ⊎ (now ≤ other.expires_at_unix))
          × ((canonical s other ≡ canonical s c) ⊎ Collision s key)
    verify-authentic c other signature now h v =
        let w = signed_with c signature h in
        let claims_ok = rw (w.2, verified_against other now (s.mac key w.0) w.3) at v in
        elim (Option-cases (canonical s other)) [
          | inl none_left ↦ absurd (not_unserialised other now _ none_left claims_ok)
          | inr (p, e) ↦ (
            fresh other now p _ e claims_ok,
            same_or_collision p w.0 e w.1 (checked other now p _ e claims_ok),
          )
        ]
      where
        same_or_collision :
            (p r : Bytes)
            → canonical s other ≡ some p
            → canonical s c ≡ some r
            → s.mac key p ≡ s.mac key r
            → (canonical s other ≡ canonical s c) ⊎ Collision s key
        same_or_collision p r e f agree = elim (Bool-cases (same_bytes p r)) [
          | inl same ↦ inl (e ∙ ap some (same_bytes-eq p r same) ∙ sym f)
          | inr differs ↦ inr (record {
            left = p;
            right = r;
            differ = λ q. ground (arith, q, same_bytes_refl r, ap (λ x. same_bytes x r) q);
            agree = agree;
          })
        ]
