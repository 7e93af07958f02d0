-- ===== src/Router/Setup/Engines.antt =====
-- Which routes an engine's name accepts, and which names get handlers.
use mini_gateway.Common.{
  Bool, List, Bool-cases, inl, inr, if◌then◌else◌, ◌≡◌, ◌↔◌, ◌⊎◌, refl, String, true, false, [],
  ◌∷◌, Dict, All, arith, eq_iff, str_eq,
}
use mini_gateway.Config.{RoutingRule, RoutingRules, is_grpc, get_http_rules}
use mini_gateway.Router.TrieRegexp.{is_regex_pattern}
use mini_gateway.Router.Setup.{
  Engine, check_endpoint, check_endpoints, validate_rules, engine_of, empty_handlers, keys,
}

-- A path that the engine's name serves.
abbrev pub IsServed : String → String → RoutingRule → Type 0
IsServed engine path endpoint =
    (is_grpc endpoint ≡ true)
    ⊎ ((is_regex_pattern path ≡ false) ⊎ ((engine ≡ "trie-regexp") ⊎ (engine ≡ "regexp")))

trie_only :
    (engine : String)
    → str_eq engine "trie" ≡ true
    → (str_eq engine "trie-regexp" ≡ false) × (str_eq engine "regexp" ≡ false)
trie_only engine h = let same : engine ≡ "trie" = (eq_iff engine "trie").0 h in rw same (refl, refl)

check_endpoint_iff :
    (engine path : String) (endpoint : RoutingRule)
    → (check_endpoint engine path endpoint ≡ true) ↔ IsServed engine path endpoint
unfolding check_endpoint
check_endpoint_iff engine path endpoint =
    ground (arith, trie_only engine, eq_iff engine "trie-regexp", eq_iff engine "regexp")

check_endpoints_iff :
    (engine path : String) (endpoints : RoutingRules)
    → (check_endpoints engine path endpoints ≡ true) ↔ All (IsServed engine path) endpoints
unfolding check_endpoints
check_endpoints_iff engine path [] = ground arith
check_endpoints_iff engine path (e ∷ es) =
    ground (arith, check_endpoint_iff engine path e, check_endpoints_iff engine path es)

-- The routes pass the check exactly when the engine is "trie-regexp" or "regexp", or each endpoint of
-- a path with a special character is for gRPC.
pub validate_rules_iff :
    (engine : String) (rules : Dict RoutingRules)
    → (validate_rules engine rules ≡ true) ↔ All (λ e. All (IsServed engine e.0) e.1) rules
unfolding validate_rules
validate_rules_iff engine [] = ground arith
validate_rules_iff engine (e ∷ es) =
    ground (arith, check_endpoints_iff engine e.0 e.1, validate_rules_iff engine es)

-- The paths that get a handler, by the engine and by whether its name is "trie-regexp".
abbrev pub handlers_for : Engine → Bool → List String → List String
handlers_for Engine.gin hyphen paths = []
handlers_for Engine.trie hyphen paths = if hyphen then [] else paths
handlers_for Engine.trie_regexp hyphen paths = if hyphen then [] else paths
handlers_for Engine.regexp hyphen paths = if hyphen then [] else paths

-- Every name but those of the Gin engine and "trie-regexp" gets a handler for each HTTP path, and
-- "trie-regexp", which names the same engine as "trie_regexp", gets none.
pub empty_handlers_lem :
    (name : String) (rules : Dict RoutingRules)
    → (engine_of "trie-regexp" ≡ engine_of "trie_regexp")
      × (empty_handlers name rules
          ≡ handlers_for (engine_of name) (str_eq name "trie-regexp") (keys (get_http_rules rules)))
unfolding empty_handlers engine_of
empty_handlers_lem name rules = (
  refl,
  elim (Bool-cases (str_eq name "trie")) [
    | inl e ↦ (let (o, o') = trie_only name e in rw (e, o) refl)
    | inr n ↦ elim (Bool-cases (str_eq name "trie-regexp")) [
      | inl e ↦ (let same : name ≡ "trie-regexp" = (eq_iff name "trie-regexp").0 e in rw same refl)
      | inr n' ↦ elim (Bool-cases (str_eq name "trie_regexp")) [
        | inl e ↦ rw (n, n', e) refl
        | inr n'' ↦ elim (Bool-cases (str_eq name "regexp")) [
          | inl e ↦ rw (n, n', n'', e) refl
          | inr n''' ↦ rw (n, n', n'', n''') refl
        ]
      ]
    ]
  ],
)
