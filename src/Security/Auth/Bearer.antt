-- ===== src/Security/Auth/Bearer.antt =====
-- A bearer header is read back, and what a login gives access to.
use mini_gateway.Common.{
  ◌≡◌, refl, String, Bool, true, false, [], ◌∷◌, Option, none, some, Dict, lookup,
  lookup-insert_self, ◌==◌, if◌then◌else◌, All, codes, Bool-cases, Option-cases, inl, inr,
}
use mini_gateway.Security.{Handled, next, abort}
use mini_gateway.Security.Auth.{
  split, bearer_of, bearer_token, Request, Rbac, check_permission, generate_rbac_login_token,
  authenticate_rbac,
}

abbrev pub IsSpaceFree : String → Type 0
IsSpaceFree s = All (λ c. (c == b' ') ≡ false) (codes s)

split-IsSpaceFree : (s : String) → IsSpaceFree s → split s ≡ s ∷ []
unfolding split
split-IsSpaceFree String.[] h = refl
split-IsSpaceFree (String.◌∷◌ c s) h = rw (h.0, split-IsSpaceFree s h.1) refl

-- A text in front of a text; on a text that is known it computes.
abbrev pub with_scheme : String → String → String
with_scheme String.[] token = token
with_scheme (String.◌∷◌ c s) token = String.◌∷◌ c (with_scheme s token)

-- A token without a space is read from its header.
pub bearer_token-header :
    (token : String) → IsSpaceFree token → bearer_token (with_scheme "Bearer " token) ≡ some token
unfolding bearer_token bearer_of split
bearer_token-header token h = rw (split-IsSpaceFree token h) refl

module _ (enforce : String → String → String → Option Bool) where
  abbrev pub serve : Dict String → String → String → String → Handled
  serve store token path method =
      authenticate_rbac (record { enabled = true; token_store = store; enforcer = some enforce })
        (record { authorization = with_scheme "Bearer " token; path = path; method = method })

  -- With the token that a login drew for a user, a request is passed on as that user's when the policy
  -- grants it, and is refused with 403 when it does not or fails.
  pub authenticate_rbac-login :
      (token username path method : String) (store : Dict String)
      → IsSpaceFree token
      → serve (generate_rbac_login_token (some token) username store).1 token path method ≡ (
          if check_permission (some enforce) username path method
          then next (some username)
          else abort 403)
  unfolding authenticate_rbac generate_rbac_login_token
  authenticate_rbac-login token username path method store h =
      rw (bearer_token-header token h, lookup-insert_self token username store) refl

  -- A token that no login has stored is refused with 401.
  pub authenticate_rbac-unknown :
      (token path method : String) (store : Dict String)
      → IsSpaceFree token
      → lookup token store ≡ none
      → serve store token path method ≡ abort 401
  unfolding authenticate_rbac
  authenticate_rbac-unknown token path method store h unknown =
      rw (bearer_token-header token h, unknown) refl

-- An enabled RBAC authenticator passes a request on only as the user of a stored token that is in its
-- header, and only with a policy that grants the user this method on this path.
pub authenticate_rbac_sound :
    (rbac : Rbac) (r : Request) (set : Option String)
    → rbac.enabled ≡ true
    → authenticate_rbac rbac r ≡ next set
    → (token : String) × (username : String) × (bearer_token r.authorization ≡ some token)
      × (lookup token rbac.token_store ≡ some username)
      × (check_permission rbac.enforcer username r.path r.method ≡ true)
      × (set ≡ some username)
unfolding authenticate_rbac
authenticate_rbac_sound rbac r set on h = elim (Option-cases (bearer_token r.authorization)) [
  | inl missing ↦ let refused : abort 401 ≡ next set = rw (on, missing) at h in cc
  | inr (token, found) ↦ elim (Option-cases (lookup token rbac.token_store)) [
    | inl unknown ↦ let refused : abort 401 ≡ next set = rw (on, found, unknown) at h in cc
    | inr (username, known) ↦
        elim (Bool-cases (check_permission rbac.enforcer username r.path r.method)) [
          | inr denied ↦
              let refused : abort 403 ≡ next set = rw (on, found, known, denied) at h in cc
          | inl granted ↦
              let served : next (some username) ≡ next set = rw (on, found, known, granted) at h in
              (token, username, found, known, granted, cc)
        ]
  ]
]
