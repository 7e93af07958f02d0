-- ===== src/Gateway/Login/Access.antt =====
-- What a login gives access to, and to whom.
use mathlib.Core.Option
use mini_gateway.Common.{
  ℕ, ◌+◌, ◌/◌, ◌<◌, ◌≤◌, ◌≡◌, ◌⊎◌, String, true, not, ◌||◌, Option, none, some, str_eq, eq_iff,
  Bool-cases, inl, inr, refl, sym, ap, ◌∙◌, arith,
}
use mini_gateway.Common.Int.{pos}
use mini_gateway.Security.{next, abort}
use mini_gateway.Security.Auth.{Request, Rbac, authenticate, authenticate_jwt}
use mini_gateway.Security.Auth.Bearer.{IsSpaceFree, with_scheme, bearer_token-header}
use mini_gateway.Security.Jwt.{JwtLibrary, JwtConfig, Claims, generate_token, validate_token}
use mini_gateway.Security.Jwt.Tokens.{IsJwt, validate_token-generate_token}
use mini_gateway.Gateway.Login.{
  Creds, LoginConfig, Tokens, jwt_token, status_of, jwt_response, give_token, check_creds,
  handle_login,
}

-- The username of a token's claims, as the JWT authenticator asks for it.
abbrev pub username_by : JwtLibrary → JwtConfig → ℕ → String → String → Option String
username_by library cfg now secret token =
    Option.map (λ (c : Claims). c.username) (validate_token library cfg now token secret).0

abbrev pub with_token : String → String → String → Request
with_token token path method = record {
  authorization = with_scheme "Bearer " token;
  path = path;
  method = method;
}

module _ (library : JwtLibrary) (cfg : LoginConfig) (now : ℕ) (drawn : Option String) where
  -- Only one name with one password logs in, whatever the mode: a body is either the username admin with
  -- the password "password", or it is answered with 400 or 401 and leaves the secret and the stored
  -- tokens as they are.
  pub handle_login_sound :
      (creds : Option Creds) (st : Tokens)
      → (creds ≡ some (record { username = "admin"; password = "password" }))
        ⊎ (((status_of (handle_login library cfg now drawn creds st).0 ≡ 400)
              ⊎ (status_of (handle_login library cfg now drawn creds st).0 ≡ 401))
            × ((handle_login library cfg now drawn creds st).1 ≡ st))
  unfolding handle_login check_creds
  handle_login_sound none st = inr (inl refl, refl)
  handle_login_sound (some c) st =
      elim (Bool-cases (str_eq c.username "" || str_eq c.password "")) [
        | inl missing ↦ inr (rw missing (inl refl, refl))
        | inr present ↦
            elim (Bool-cases
              (not (str_eq c.username "admin") || not (str_eq c.password "password"))) [
                | inl wrong ↦ inr (rw (present, wrong) (inr refl, refl))
                | inr right ↦
                    let name : str_eq c.username "admin" ≡ true = ground (arith, right) in
                    let word : str_eq c.password "password" ≡ true = ground (arith, right) in
                    inl (λ i. some (record {
                      username = (eq_iff c.username "admin").0 name i;
                      password = (eq_iff c.password "password").0 word i;
                    }))
              ]
      ]

  jwt_response-some :
      (o : Option String) (token : String) → jwt_response o ≡ jwt_token token → o ≡ some token
  jwt_response-some none token e = cc
  jwt_response-some (some t) token e = cc

  -- The login in the mode jwt.
  jwt_login :
      (st : Tokens)
      → cfg.auth_mode ≡ "jwt"
      → handle_login library cfg now drawn
          (some (record { username = "admin"; password = "password" }))
          st
        ≡ (
          jwt_response (generate_token library cfg.jwt now "admin" st.jwt_secret).0,
          record st { jwt_secret = (generate_token library cfg.jwt now "admin" st.jwt_secret).1 },
        )
  unfolding handle_login check_creds give_token
  jwt_login st mode = rw ((eq_iff cfg.auth_mode "jwt").1 mode) refl

  token-IsSpaceFree :
      (law : IsJwt library) (st : Tokens) (token : String)
      → (generate_token library cfg.jwt now "admin" st.jwt_secret).0 ≡ some token
      → IsSpaceFree token
  unfolding generate_token
  token-IsSpaceFree law st token signed = law.space_free _ token _ signed

  -- In the mode jwt, with the library's laws and a configured number of seconds up to 9223372036: the token that a login
  -- hands out lets a request with it as its bearer pass as admin until these seconds have passed, by the clock's whole
  -- seconds, and from then on the request is refused with 401, also if another secret has been configured in the
  -- meantime.
  pub handle_login-authenticate :
      (law : IsJwt library) (st : Tokens) (token : String)
      → cfg.auth_mode ≡ "jwt"
      → (seconds : ℕ) → cfg.jwt.expires_in ≡ pos seconds
      → seconds ≤ 9223372036
      → (handle_login library cfg now drawn
          (some (record { username = "admin"; password = "password" }))
          st).0
        ≡ jwt_token token
      → (later : JwtConfig) (then_now : ℕ) (rbac : Rbac) (path method : String)
      → (then_now / 1000000000 < now / 1000000000 + seconds
          → authenticate "jwt"
              (username_by library later then_now
                (handle_login library cfg now drawn
                  (some (record { username = "admin"; password = "password" }))
                  st).1.jwt_secret)
              rbac
              (with_token token path method)
            ≡ next (some "admin"))
        × (now / 1000000000 + seconds ≤ then_now / 1000000000
            → authenticate "jwt"
                (username_by library later then_now
                  (handle_login library cfg now drawn
                    (some (record { username = "admin"; password = "password" }))
                    st).1.jwt_secret)
                rbac
                (with_token token path method)
              ≡ abort 401)
  unfolding authenticate authenticate_jwt
  handle_login-authenticate law st token mode seconds configured h given later then_now rbac path
        method =
      let login = jwt_login st mode in
      let signed =
        jwt_response-some (generate_token library cfg.jwt now "admin" st.jwt_secret).0 token
          (sym (ap (λ r. r.0) login) ∙ given) in
      let (fresh, old) =
        validate_token-generate_token library law cfg.jwt later now then_now seconds "admin"
          st.jwt_secret token configured h signed in
      let read = bearer_token-header token (token-IsSpaceFree law st token signed) in
      (λ early. rw (login, read, fresh early) refl, λ late. rw (login, read, old late) refl)
