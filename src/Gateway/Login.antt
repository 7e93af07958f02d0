-- ===== src/Gateway/Login.antt =====
-- cmd/gateway/main.go: handleLogin, with the two kinds of tokens that it hands out.
pub mod Access
mod Tests
use mini_gateway.Common.{
  ℕ, String, Bool, not, ◌||◌, Option, none, some, Dict, str_eq, if◌then◌else◌,
}
use mini_gateway.Security.Auth.{generate_rbac_login_token}
use mini_gateway.Security.Jwt.{JwtLibrary, JwtConfig, generate_token}

-- A body that is JSON, as its two fields; both are required, so neither is the empty text.
pub record Creds : Type 0 where
  pub username : String
  pub password : String

-- The configuration's part, and what the packages keep of tokens.
pub record LoginConfig : Type 0 where
  pub auth_mode : String
  pub jwt : JwtConfig

pub record Tokens : Type 0 where
  pub jwt_secret : String
  pub token_store : Dict String

pub data Response : Type 0 where
  invalid_request invalid_credentials server_error : Response
  jwt_token : String → Response
  rbac_token : String → String → Response
  logged_in : String → Response

abbrev pub status_of : Response → ℕ
status_of invalid_request = 400
status_of invalid_credentials = 401
status_of server_error = 500
status_of (jwt_token token) = 200
status_of (rbac_token token username) = 200
status_of (logged_in username) = 200

abbrev jwt_response : Option String → Response
jwt_response none = server_error
jwt_response (some token) = jwt_token token

abbrev rbac_response : String → Option String → Response
rbac_response username none = server_error
rbac_response username (some token) = rbac_token token username

-- `drawn` is the RBAC token that would be drawn, if the machine has an id.
module _ (library : JwtLibrary) (cfg : LoginConfig) (now : ℕ) (drawn : Option String) where
  -- The switch over the mode.
  unfoldable pub give_token : String → Tokens → Response × Tokens
  unfolding generate_token generate_rbac_login_token
  give_token username st =
      if str_eq cfg.auth_mode "jwt"
      then (let (token, secret) = generate_token library cfg.jwt now username st.jwt_secret in
          (jwt_response token, record st { jwt_secret = secret }))
      else if str_eq cfg.auth_mode "rbac"
      then (let (token, store) = generate_rbac_login_token drawn username st.token_store in
          (rbac_response username token, record st { token_store = store }))
      else (logged_in username, st)

  unfoldable pub check_creds : Creds → Tokens → Response × Tokens
  unfolding give_token
  check_creds creds st =
      if str_eq creds.username "" || str_eq creds.password ""
      then (invalid_request, st)
      else if not (str_eq creds.username "admin") || not (str_eq creds.password "password")
      then (invalid_credentials, st)
      else give_token creds.username st

  -- `none` is a body that is not JSON.
  unfoldable pub handle_login : Option Creds → Tokens → Response × Tokens
  unfolding check_creds
  handle_login none st = (invalid_request, st)
  handle_login (some creds) st = check_creds creds st
