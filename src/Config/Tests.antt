-- ===== src/Config/Tests.antt =====
-- The views at a small configuration.
use mini_gateway.Common.{◌≡◌, refl, String, true, List, [], ◌∷◌, none, Dict, lookup, insert}
use mini_gateway.Common.Int.{pos}
use mini_gateway.Config.{
  RoutingRule, RoutingRules, CachingRule, get_http_rules, get_grpc_rules, get_websocket_rules,
  get_cache_rule_by_path,
}
use mini_gateway.Config.Views.{HasDistinctKeys}
use mini_gateway.Config.Validate.{GrpcConfig}

abbrev rule : String → String → RoutingRule
rule target protocol = record {
  target = target;
  weight = pos 1;
  env = "stable";
  protocol = protocol;
  health_check_path = "";
}

abbrev rules : Dict RoutingRules
rules =
    ("/chat", rule "ws://c" "websocket" ∷ rule "http://d" "http" ∷ [])
    ∷ ("/api", rule "http://a" "http" ∷ [])
    ∷ ("/hello", rule "g:50051" "grpc" ∷ [])
    ∷ []

views :
    (get_http_rules rules ≡ ("/api", rule "http://a" "http" ∷ []) ∷ [])
    × (get_grpc_rules rules ≡ ("/hello", rule "g:50051" "grpc" ∷ []) ∷ [])
    × (get_websocket_rules rules ≡ ("/chat", rule "ws://c" "websocket" ∷ []) ∷ [])
unfolding get_http_rules get_grpc_rules get_websocket_rules insert
views = (refl, refl, refl)

rules-HasDistinctKeys : HasDistinctKeys rules
unfolding lookup
rules-HasDistinctKeys = (refl, (refl, (refl, tt)))

abbrev grpc : GrpcConfig
grpc = record { enabled = true; prefix = "/grpc"; allowed_origins = "*" ∷ [] }

abbrev caching : List CachingRule
caching = record { path = "/api"; method = "GET"; threshold = pos 3; ttl = pos 60 } ∷ []

cache_rule_missing : get_cache_rule_by_path caching "/other" ≡ none
unfolding get_cache_rule_by_path
cache_rule_missing = refl
