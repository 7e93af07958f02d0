-- ===== src/Security/Jwt.antt =====
-- internal/core/security/jwt.go. The JWT library is a record of the two calls that the code makes. The clock is in
-- nanoseconds, a claim's time in seconds; the secret is the package's variable and is passed on.
pub mod Tokens
use mini_gateway.Common.{
  ℕ, ◌+◌, ◌*◌, ◌/◌, String, Bool, true, false, Option, none, some, str_eq, if◌then◌else◌,
}
use mini_gateway.Common.Int.{ℤ, pos, negsuc, ◌+ℤ◌, wrap}

pub record Claims : Type 0 where
  pub username : String
  pub expires_at : ℤ
  pub issued_at : ℕ
  pub subject : String

-- `parse key now token`: the claims of a token and whether they are valid, or an error. `key` gives the
-- secret for a token, by whether its method is HMAC.
pub record JwtLibrary : Type 0 where
  pub sign : String → Claims → Option String
  pub parse : (Bool → Option String) → ℕ → String → Option (Claims × Bool)

-- config.go, JWT.
pub record JwtConfig : Type 0 where
  pub secret : String
  pub expires_in : ℤ

unfoldable pub init_jwt : JwtConfig → String
init_jwt cfg = if str_eq cfg.secret "" then "default-secret-key" else cfg.secret

-- The secret that a call works with: the variable is set when it is still empty.
unfoldable pub current_secret : JwtConfig → String → String
unfolding init_jwt
current_secret cfg secret = if str_eq secret "" then init_jwt cfg else secret

-- `time.Duration(s) * time.Second`, in 64 bits.
unfoldable pub seconds_to_nanos : ℤ → ℤ
unfolding wrap
seconds_to_nanos (pos n) = wrap (pos (n * 1000000000))
seconds_to_nanos (negsuc n) = wrap (negsuc (n * 1000000000 + 999999999))

-- What `jwt.NewNumericDate` keeps of a time.
abbrev floor_seconds : ℤ → ℤ
floor_seconds (pos t) = pos (t / 1000000000)
floor_seconds (negsuc t) = negsuc (t / 1000000000)

unfoldable pub expiration_time : JwtConfig → ℕ → ℤ
unfolding ◌+ℤ◌ seconds_to_nanos
expiration_time cfg now = floor_seconds (pos now +ℤ seconds_to_nanos cfg.expires_in)

abbrev pub claims_for : JwtConfig → ℕ → String → Claims
claims_for cfg now username = record {
  username = username;
  expires_at = expiration_time cfg now;
  issued_at = now / 1000000000;
  subject = username;
}

abbrev pub key_of : String → Bool → Option String
key_of secret true = some secret
key_of secret false = none

abbrev pub claims_of : Option (Claims × Bool) → Option Claims
claims_of none = none
claims_of (some (claims, true)) = some claims
claims_of (some (claims, false)) = none

module _ (library : JwtLibrary) where
  -- The result and the variable after the call.
  unfoldable pub generate_token : JwtConfig → ℕ → String → String → Option String × String
  unfolding current_secret
  generate_token cfg now username secret =
      let secret' = current_secret cfg secret in
      (library.sign secret' (claims_for cfg now username), secret')

  unfoldable pub validate_token : JwtConfig → ℕ → String → String → Option Claims × String
  unfolding current_secret
  validate_token cfg now token secret =
      let secret' = current_secret cfg secret in
      (claims_of (library.parse (key_of secret') now token), secret')
