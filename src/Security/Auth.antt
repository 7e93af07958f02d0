-- ===== src/Security/Auth.antt =====
-- internal/middleware/auth with internal/core/security/rbac.go: the three authenticators. What checks a
-- JWT and what enforces the policy (Casbin) are parameters, and so is the token that a login draws.
pub mod Bearer
use Prim.Native.Char.{Char, code}
use mini_gateway.Common.{
  ℕ, String, Bool, true, false, List, [], ◌∷◌, Option, none, some, Dict, lookup, insert, ◌==◌,
  str_eq, if◌then◌else◌,
}
use mini_gateway.Security.{Handled, next, abort}

-- `strings.Split(text, " ")`.
abbrev pub prepend : Char → List String → List String
prepend c [] = (String.◌∷◌ c "") ∷ []
prepend c (part ∷ parts) = (String.◌∷◌ c part) ∷ parts

unfoldable pub split : String → List String
split String.[] = "" ∷ []
split (String.◌∷◌ c s) = let rest = split s in if code c == b' ' then "" ∷ rest else prepend c rest

-- `text == ""`.
abbrev is_empty : String → Bool
is_empty String.[] = true
is_empty (String.◌∷◌ c s) = false

-- The token of an Authorization header.
unfoldable pub bearer_of : List String → Option String
bearer_of (scheme ∷ token ∷ []) = if str_eq scheme "Bearer" then some token else none
bearer_of _ = none

unfoldable pub bearer_token : String → Option String
unfolding bearer_of split
bearer_token header = if is_empty header then none else bearer_of (split header)

pub record Request : Type 0 where
  pub authorization : String
  pub path : String
  pub method : String

-- What `CheckPermission` answers; the enforcer may not be initialised, and may fail.
unfoldable pub check_permission :
    Option (String → String → String → Option Bool) → String → String → String → Bool
check_permission none sub obj act = false
check_permission (some enforce) sub obj act = granted (enforce sub obj act)
  where
    granted : Option Bool → Bool
    granted none = false
    granted (some ok) = ok

-- `GenerateRBACLoginToken`: the token that was drawn, if the machine has an id, is stored.
unfoldable pub generate_rbac_login_token :
    Option String → String → Dict String → Option String × Dict String
unfolding insert
generate_rbac_login_token none username store = (none, store)
generate_rbac_login_token (some token) username store = (some token, insert token username store)

pub record Rbac : Type 0 where
  pub enabled : Bool
  pub token_store : Dict String
  pub enforcer : Option (String → String → String → Option Bool)

-- The handlers after the token, and after the user, is known or not.
abbrev user_or_401 : Option String → (String → Handled) → Handled
user_or_401 none serve = abort 401
user_or_401 (some a) serve = serve a

-- `JWTAuthenticator.Authenticate`, where `validate` is the username of a token's claims.
unfoldable pub authenticate_jwt : (String → Option String) → Request → Handled
unfolding bearer_token
authenticate_jwt validate r =
    user_or_401 (bearer_token r.authorization)
      λ token. user_or_401 (validate token) λ username. next (some username)

-- `RBACAuthenticator.Authenticate`.
unfoldable pub authenticate_rbac : Rbac → Request → Handled
unfolding bearer_token check_permission lookup
authenticate_rbac rbac r =
    if rbac.enabled
    then user_or_401 (bearer_token r.authorization) (λ token.
      user_or_401 (lookup token rbac.token_store) λ username.
        if check_permission rbac.enforcer username r.path r.method
        then next (some username)
        else abort 403)
    else next none

-- `NewAuthenticator` and the authenticator that it makes.
unfoldable pub authenticate : String → (String → Option String) → Rbac → Request → Handled
unfolding authenticate_jwt authenticate_rbac
authenticate mode validate rbac r =
    if str_eq mode "jwt"
    then authenticate_jwt validate r
    else if str_eq mode "rbac"
    then authenticate_rbac rbac r
    else next none
