-- ===== src/Security/Jwt/Tokens.antt =====
-- A token that was generated is valid until it expires.
use mini_gateway.Common.{
  arith, Bool, false, ap, ◌∙◌, ℕ, ◌+◌, ◌*◌, ◌/◌, ◌<◌, ◌≤◌, ◌≡◌, String, true, none, some, str_eq,
  Bool-cases, inl, inr, refl,
}
use mini_gateway.Common.Int.{ℤ, pos, ltb_ℤ, ◌+ℤ◌, wrap, signed}
use mini_gateway.Security.Auth.Bearer.{IsSpaceFree}
use mini_gateway.Security.Jwt.{
  Claims, JwtLibrary, JwtConfig, init_jwt, current_secret, claims_for, seconds_to_nanos,
  expiration_time, key_of, generate_token, validate_token,
}

-- A time in nanoseconds against one in seconds.
abbrev pub is_before : ℕ → ℤ → Bool
is_before now seconds = ltb_ℤ (pos (now / 1000000000)) seconds

-- What the library documents: a token is base64 without spaces; with the secret that signed it, it is
-- parsed to its claims while they have not expired, and refused from then on.
pub record IsJwt (library : JwtLibrary) : Type 0 where
  pub space_free :
      (secret token : String) (claims : Claims)
      → library.sign secret claims ≡ some token
      → IsSpaceFree token
  pub parsed :
      (secret token : String) (claims : Claims) (now : ℕ)
      → library.sign secret claims ≡ some token
      → is_before now claims.expires_at ≡ true
      → library.parse (key_of secret) now token ≡ some (claims, true)
  pub expired :
      (secret token : String) (claims : Claims) (now : ℕ)
      → library.sign secret claims ≡ some token
      → is_before now claims.expires_at ≡ false
      → library.parse (key_of secret) now token ≡ none

-- Once the secret is set it stays, whatever is configured later.
current_secret-kept :
    (cfg later : JwtConfig) (secret : String)
    → current_secret later (current_secret cfg secret) ≡ current_secret cfg secret
unfolding current_secret init_jwt
current_secret-kept cfg later secret = elim (Bool-cases (str_eq secret "")) [
  | inr set ↦ rw (set, set) refl
  | inl unset ↦ elim (Bool-cases (str_eq cfg.secret "")) [
    | inl default ↦ rw (unset, default) refl
    | inr own ↦ rw (unset, own, own) refl
  ]
]

seconds_to_nanos-pos : (n : ℕ) → n ≤ 9223372036 → seconds_to_nanos (pos n) ≡ pos (n * 1000000000)
unfolding seconds_to_nanos wrap signed
seconds_to_nanos-pos n h = ground arith

add-pos : (a b : ℕ) → pos a +ℤ pos b ≡ pos (a + b)
unfolding ◌+ℤ◌
add-pos a b = ground arith

is_before-lt : (now n : ℕ) → now / 1000000000 < n → is_before now (pos n) ≡ true
is_before-lt now n h = ground arith

is_before-le : (now n : ℕ) → n ≤ now / 1000000000 → is_before now (pos n) ≡ false
is_before-le now n h = ground arith

-- The product stays below 2^63 up to 9223372036 seconds, about 292 years.
expiration_time-pos :
    (cfg : JwtConfig) (now seconds : ℕ)
    → cfg.expires_in ≡ pos seconds
    → seconds ≤ 9223372036
    → expiration_time cfg now ≡ pos (now / 1000000000 + seconds)
unfolding expiration_time
expiration_time-pos cfg now seconds e h =
    let whole : (now + seconds * 1000000000) / 1000000000 ≡ now / 1000000000 + seconds =
      omega arith in
    rw (e, seconds_to_nanos-pos seconds h, add-pos now (seconds * 1000000000)) (ap pos whole)

module _ (library : JwtLibrary) (law : IsJwt library) where
  -- A token is generated at a time for a user, for at most 9223372036 seconds: before they have passed, it is
  -- valid and its claims name the user, and from then on it is refused, also if another secret has been
  -- configured in the meantime.
  pub validate_token-generate_token :
      (cfg later : JwtConfig) (now then_now seconds : ℕ) (username secret token : String)
      → cfg.expires_in ≡ pos seconds
      → seconds ≤ 9223372036
      → (generate_token library cfg now username secret).0 ≡ some token
      → (then_now / 1000000000 < now / 1000000000 + seconds
          → (validate_token library later then_now token
              (generate_token library cfg now username secret).1).0
            ≡ some (claims_for cfg now username))
        × (now / 1000000000 + seconds ≤ then_now / 1000000000
            → (validate_token library later then_now token
                (generate_token library cfg now username secret).1).0
              ≡ none)
  unfolding generate_token validate_token
  validate_token-generate_token cfg later now then_now seconds username secret token configured h
        made =
      let at = expiration_time-pos cfg now seconds configured h in
      let same = current_secret-kept cfg later secret in
      let used = current_secret cfg secret in
      let claims = claims_for cfg now username in
      (
        λ fresh.
            rw
              (
                same,
                law.parsed used token claims then_now made (
                    ap (is_before then_now) at
                    ∙ is_before-lt then_now (now / 1000000000 + seconds) fresh),
              )
              refl,
        λ old.
            rw
              (
                same,
                law.expired used token claims then_now made (
                    ap (is_before then_now) at
                    ∙ is_before-le then_now (now / 1000000000 + seconds) old),
              )
              refl,
      )
