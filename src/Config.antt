-- ===== src/Config.antt =====
-- config/config.go: routing rules and the three views of them by protocol.
pub mod Views
pub mod Validate
pub mod Schema
pub mod Init
mod Tests
use mini_gateway.Common.{
  ℕ, String, Bool, true, false, ◌&&◌, not, List, [], ◌∷◌, Option, none, some, Dict, insert, any,
  select, length, ◌==◌, ltb, str_eq, if◌then◌else◌,
}
use mini_gateway.Common.Int.{ℤ}

pub record RoutingRule : Type 0 where
  pub target : String
  pub weight : ℤ
  pub env : String
  pub protocol : String
  pub health_check_path : String

abbrev pub RoutingRules : Type 0
RoutingRules = List RoutingRule

pub record Grayscale : Type 0 where
  pub enabled : Bool
  pub weighted_random : Bool
  pub default_env : String
  pub canary_env : String

pub record Routing : Type 0 where
  pub rules : Dict RoutingRules
  pub engine : String
  pub load_balancer : String
  pub heartbeat_interval : ℤ
  pub grayscale : Grayscale

pub record CachingRule : Type 0 where
  pub path : String
  pub method : String
  pub threshold : ℤ
  pub ttl : ℤ

abbrev pub is_grpc : RoutingRule → Bool
is_grpc rule = str_eq rule.protocol "grpc"

abbrev pub is_websocket : RoutingRule → Bool
is_websocket rule = str_eq rule.protocol "websocket"

unfoldable pub has_grpc_rule : RoutingRules → Bool
has_grpc_rule rules = any is_grpc rules

unfoldable pub has_websocket_rule : RoutingRules → Bool
has_websocket_rule rules = any is_websocket rules

-- Each view is built by a loop that writes into a new map.
websocket_rules_from : Dict RoutingRules → Dict RoutingRules → Dict RoutingRules
websocket_rules_from ws_rules [] = ws_rules
websocket_rules_from ws_rules ((path, rules) ∷ rest) =
    let filtered = select is_websocket rules in
    websocket_rules_from
      (if ltb 0 (length filtered) then insert path filtered ws_rules else ws_rules) rest

unfoldable pub get_websocket_rules : Dict RoutingRules → Dict RoutingRules
unfolding websocket_rules_from
get_websocket_rules rules = websocket_rules_from [] rules

grpc_rules_from : Dict RoutingRules → Dict RoutingRules → Dict RoutingRules
unfolding has_grpc_rule
grpc_rules_from grpc_rules [] = grpc_rules
grpc_rules_from grpc_rules ((path, rules) ∷ rest) =
    grpc_rules_from (if has_grpc_rule rules then insert path rules grpc_rules else grpc_rules) rest

unfoldable pub get_grpc_rules : Dict RoutingRules → Dict RoutingRules
unfolding grpc_rules_from
get_grpc_rules rules = grpc_rules_from [] rules

http_rules_from : Dict RoutingRules → Dict RoutingRules → Dict RoutingRules
unfolding has_grpc_rule has_websocket_rule
http_rules_from http_rules [] = http_rules
http_rules_from http_rules ((path, rules) ∷ rest) =
    http_rules_from
      (if not (has_grpc_rule rules) && not (has_websocket_rule rules)
        then insert path rules http_rules
        else http_rules)
      rest

unfoldable pub get_http_rules : Dict RoutingRules → Dict RoutingRules
unfolding http_rules_from
get_http_rules rules = http_rules_from [] rules

-- The first rule for the path.
unfoldable pub get_cache_rule_by_path : List CachingRule → String → Option CachingRule
get_cache_rule_by_path [] path = none
get_cache_rule_by_path (rule ∷ rules) path =
    if str_eq rule.path path then some rule else get_cache_rule_by_path rules path
