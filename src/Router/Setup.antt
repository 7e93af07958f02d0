-- ===== src/Router/Setup.antt =====
-- internal/core/routing/setup.go: the check of the routes against the engine, and what is set up.
pub mod Engines
use mini_gateway.Common.{
  String, Bool, true, false, not, ◌&&◌, ◌||◌, List, [], ◌∷◌, Option, none, some, Dict, length, ltb,
  str_eq, if◌then◌else◌,
}
use mini_gateway.Config.{
  RoutingRule, RoutingRules, is_grpc, get_http_rules, get_grpc_rules, get_websocket_rules,
}
use mini_gateway.Router.TrieRegexp.{is_regex_pattern}

pub data Engine : Type 0 where
  trie trie_regexp regexp gin : Engine

-- The switch that makes the router.
unfoldable pub engine_of : String → Engine
engine_of name =
    if str_eq name "trie"
    then trie
    else if str_eq name "trie-regexp" || str_eq name "trie_regexp"
    then trie_regexp
    else if str_eq name "regexp"
    then regexp
    else gin

-- One endpoint of a path: whether the process goes on.
unfoldable pub check_endpoint : String → String → RoutingRule → Bool
check_endpoint engine path endpoint =
    if is_grpc endpoint
    then true
    else if str_eq engine "trie" && is_regex_pattern path
    then false
    else not
        (is_regex_pattern path && not (str_eq engine "trie-regexp") && not (str_eq engine "regexp"))

unfoldable pub check_endpoints : String → String → RoutingRules → Bool
unfolding check_endpoint
check_endpoints engine path [] = true
check_endpoints engine path (endpoint ∷ rest) =
    check_endpoint engine path endpoint && check_endpoints engine path rest

-- `false` is `os.Exit(1)`.
unfoldable pub validate_rules : String → Dict RoutingRules → Bool
unfolding check_endpoints
validate_rules engine [] = true
validate_rules engine ((path, endpoints) ∷ rest) =
    check_endpoints engine path endpoints && validate_rules engine rest

pub record Installed : Type 0 where
  pub engine : Engine
  pub grpc_proxy : Bool
  pub websocket_proxy : Bool
  -- The paths that get an empty handler, so that the engine's middleware runs for them.
  pub handlers : List String

abbrev pub keys : Dict RoutingRules → List String
keys [] = []
keys ((path, _) ∷ rest) = path ∷ keys rest

-- The second switch, on the name again.
unfoldable pub empty_handlers : String → Dict RoutingRules → List String
empty_handlers engine rules =
    if str_eq engine "trie" || str_eq engine "trie_regexp" || str_eq engine "regexp"
    then keys (get_http_rules rules)
    else []

unfoldable pub setup : String → Bool → Bool → Dict RoutingRules → Option Installed
unfolding validate_rules engine_of empty_handlers
setup engine grpc_enabled websocket_enabled rules =
    if validate_rules engine rules
    then some record {
      engine = engine_of engine;
      grpc_proxy = grpc_enabled && ltb 0 (length (get_grpc_rules rules));
      websocket_proxy = websocket_enabled && ltb 0 (length (get_websocket_rules rules));
      handlers = empty_handlers engine rules;
    }
    else none
