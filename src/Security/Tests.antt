-- ===== src/Security/Tests.antt =====
-- The access checks against a store that is a function, and a policy that grants reads.
use mini_gateway.Common.{
  ◌≡◌, refl, String, Bool, true, not, ◌&&◌, ◌||◌, [], ◌∷◌, Option, some, lookup, length, str_eq,
  if◌then◌else◌, ◌==◌,
}
use mini_gateway.Security.{next, abort}
use mini_gateway.Security.IpAcl.{
  Redis, BoolReply, value, nil, failed, IpConfig, check_ip_access, init_ip_rules, ip_acl,
}
use mini_gateway.Security.IpAcl.Policy.{IsRedis, listed, check_ip_access-override}
use mini_gateway.Security.Auth.{Request, Rbac, bearer_token, check_permission, authenticate_rbac}
use mini_gateway.Security.Auth.Bearer.{authenticate_rbac_sound}

abbrev Store : Type 0
Store = String → String → BoolReply

abbrev store : Redis Store
store = record {
  hget_bool = λ s key field. s key field;
  hset = λ s key field text. λ key' field'.
      if str_eq key key' && str_eq field field' then value (str_eq text "true") else s key' field';
  del = λ s a b. λ key field. if str_eq a key || str_eq b key then nil else s key field;
}

store-IsRedis : IsRedis store
store-IsRedis = record {
  hget-hset = λ s key field key' field'. refl;
  hget-del = λ s a b key field. refl;
}

abbrev cfg_of : String → IpConfig
cfg_of mode = record {
  ip_whitelist = "10.0.0.1" ∷ [];
  ip_blacklist = "10.0.0.9" ∷ [];
  ip_update_mode = mode;
}

abbrev all_listed : Store
all_listed key field = value true

check_ip_access-override_example :
    check_ip_access store
      (init_ip_rules store (cfg_of "override") all_listed)
      "10.0.0.2"
      (cfg_of "override")
    ≡ some (
        if length (cfg_of "override").ip_whitelist == 0
        then not (listed "10.0.0.2" (cfg_of "override").ip_blacklist)
        else listed "10.0.0.2" (cfg_of "override").ip_whitelist)
check_ip_access-override_example =
    check_ip_access-override store store-IsRedis (cfg_of "override") all_listed "10.0.0.2" refl

-- A Redis that fails is a 500.
broken_store : ip_acl store (λ key field. failed) "10.0.0.2" (cfg_of "append") ≡ abort 500
unfolding ip_acl
broken_store = refl

abbrev reads_only : String → String → String → Option Bool
reads_only sub obj act = some (str_eq act "GET")

abbrev ann : Rbac
ann = record { enabled = true; token_store = ("t0k", "ann") ∷ []; enforcer = some reads_only }

abbrev get_api : Request
get_api = record { authorization = "Bearer t0k"; path = "/api"; method = "GET" }

get_api_passes : authenticate_rbac ann get_api ≡ next (some "ann")
unfolding authenticate_rbac
get_api_passes = refl

authenticate_rbac_sound_example :
    (token : String) × (username : String) × (bearer_token get_api.authorization ≡ some token)
    × (lookup token ann.token_store ≡ some username)
    × (check_permission ann.enforcer username get_api.path get_api.method ≡ true)
    × (some "ann" ≡ some username)
authenticate_rbac_sound_example =
    authenticate_rbac_sound ann get_api (some "ann") refl get_api_passes
