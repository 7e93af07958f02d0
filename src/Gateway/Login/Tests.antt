-- ===== src/Gateway/Login/Tests.antt =====
-- A library that signs the claims of one login, made in second 10 with an hour to live.
use mini_gateway.Common.{
  true-ne-false, ◌/◌, ◌+◌, ◌<◌, ◌≤◌, ◌≡◌, ◌&&◌, String, Bool, true, false, Option, none, some, [],
  ◌==◌, ==_iff, str_eq, eq_iff, if◌then◌else◌, Bool-cases, inl, inr, none-ne-some, refl, sym, ap,
  subst, ◌∙◌, arith,
}
use mini_gateway.Common.Int.{ℤ, pos, negsuc, wrap, signed as signed_bits, ◌+ℤ◌}
use mini_gateway.Security.{next, abort}
use mini_gateway.Security.Auth.{Rbac, authenticate}
use mini_gateway.Security.Auth.Bearer.{IsSpaceFree}
use mini_gateway.Security.Jwt.{
  Claims, JwtLibrary, JwtConfig, seconds_to_nanos, expiration_time, generate_token,
}
use mini_gateway.Security.Jwt.Tokens.{is_before, IsJwt}
use mini_gateway.Gateway.Login.{Creds, LoginConfig, Tokens, jwt_token, handle_login}
use mini_gateway.Gateway.Login.Access.{username_by, with_token, handle_login-authenticate}

abbrev claims : Claims
claims = record { username = "admin"; expires_at = pos 3610; issued_at = 10; subject = "admin" }

abbrev is_3610 : ℤ → Bool
is_3610 (pos n) = n == 3610
is_3610 (negsuc n) = false

is_3610-pos : (seconds : ℤ) → is_3610 seconds ≡ true → seconds ≡ pos 3610
is_3610-pos (pos n) e = ap pos ((==_iff n 3610).0 e)
is_3610-pos (negsuc n) e = absurd (true-ne-false (sym e))

abbrev is_signed : String → Claims → Bool
is_signed secret c =
    str_eq secret "s3cret"
    && (str_eq c.username "admin"
        && (is_3610 c.expires_at && (c.issued_at == 10 && str_eq c.subject "admin")))

abbrev has_secret : Option String → Bool
has_secret none = false
has_secret (some secret) = str_eq secret "s3cret"

abbrev library : JwtLibrary
library = record {
  sign = λ secret c. if is_signed secret c then some "t0k" else none;
  parse = λ key now token.
      if has_secret (key true) && (str_eq token "t0k" && is_before now (pos 3610))
      then some (claims, true)
      else none;
}

-- What is known of a signature of the library.
signed :
    (secret token : String) (c : Claims)
    → library.sign secret c ≡ some token
    → (secret ≡ "s3cret") × (token ≡ "t0k") × (c ≡ claims)
signed secret token c e = elim (Bool-cases (is_signed secret c)) [
  | inr other ↦ absurd (none-ne-some (sym (not_signed secret c other) ∙ e))
  | inl good ↦ (
    (eq_iff secret "s3cret").0 (ground (arith, good)),
    ground (arith, good, e),
    λ i. record {
      username = (eq_iff c.username "admin").0 (ground (arith, good)) i;
      expires_at = is_3610-pos c.expires_at (ground (arith, good)) i;
      issued_at = (==_iff c.issued_at 10).0 (ground (arith, good)) i;
      subject = (eq_iff c.subject "admin").0 (ground (arith, good)) i;
    },
  )
]
  where
    not_signed :
        (secret : String) (c : Claims) → is_signed secret c ≡ false → library.sign secret c ≡ none
    not_signed secret c other = λ i. if other i then some "t0k" else none

library-IsJwt : IsJwt library
library-IsJwt = record {
  space_free = λ secret token c e.
      (let (_, t, _) = signed secret token c e in
        subst IsSpaceFree (sym t) (refl, (refl, (refl, tt))));
  parsed = λ secret token c now e fresh.
      (let (s, t, same) = signed secret token c e in
        rw (s, t, same)
          (rw (ap (λ (k : Claims). is_before now k.expires_at) (sym same) ∙ fresh) refl));
  expired = λ secret token c now e old.
      (let (s, t, same) = signed secret token c e in
        rw (s, t) (rw (ap (λ (k : Claims). is_before now k.expires_at) (sym same) ∙ old) refl));
}

abbrev jwt : String → JwtConfig
jwt secret = record { secret = secret; expires_in = pos 3600 }

abbrev cfg : LoginConfig
cfg = record { auth_mode = "jwt"; jwt = jwt "s3cret" }

abbrev empty : Tokens
empty = record { jwt_secret = ""; token_store = [] }

token_made : (generate_token library (jwt "s3cret") 10500000000 "admin" "").0 ≡ some "t0k"
unfolding generate_token expiration_time seconds_to_nanos wrap signed_bits ◌+ℤ◌
token_made = refl

abbrev admin : Option Creds
admin = some (record { username = "admin"; password = "password" })

abbrev rbac : Rbac
rbac = record { enabled = false; token_store = []; enforcer = none }

login_given : (handle_login library cfg 10500000000 none admin empty).0 ≡ jwt_token "t0k"
unfolding handle_login expiration_time seconds_to_nanos wrap signed_bits ◌+ℤ◌
login_given = refl

handle_login-authenticate_example :
    (1000000000000 / 1000000000 < 10500000000 / 1000000000 + 3600
      → authenticate "jwt"
          (username_by library
            (jwt "other")
            1000000000000
            (handle_login library cfg 10500000000 none admin empty).1.jwt_secret)
          rbac
          (with_token "t0k" "/a" "GET")
        ≡ next (some "admin"))
    × (10500000000 / 1000000000 + 3600 ≤ 1000000000000 / 1000000000
        → authenticate "jwt"
            (username_by library
              (jwt "other")
              1000000000000
              (handle_login library cfg 10500000000 none admin empty).1.jwt_secret)
            rbac
            (with_token "t0k" "/a" "GET")
          ≡ abort 401)
handle_login-authenticate_example =
    handle_login-authenticate library cfg 10500000000 none library-IsJwt empty "t0k" refl 3600 refl
      (omega arith) login_given (jwt "other") 1000000000000 rbac "/a" "GET"

-- The first number of seconds whose nanoseconds are more than 64 bits hold gives a token that has expired when it is
-- handed out.
expired_at_once :
    is_before 1700000000000000000
      (expiration_time (record { secret = ""; expires_in = pos 9223372037 }) 1700000000000000000)
    ≡ false
unfolding expiration_time seconds_to_nanos wrap signed_bits ◌+ℤ◌
expired_at_once = refl
