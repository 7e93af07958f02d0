-- ===== src/Gateway/Routes/Tests.antt =====
-- The handlers at a configuration of one route.
use mini_gateway.Common.{◌≡◌, refl, String, List, [], ◌∷◌, Option, none, some, Dict, lookup}
use mini_gateway.Common.Int.{pos}
use mini_gateway.Config.{
  RoutingRule, RoutingRules, get_http_rules, get_grpc_rules, get_websocket_rules,
}
use mini_gateway.Config.Views.{HasDistinctKeys, view_at, keep_http, keep_grpc, keep_websocket}
use mini_gateway.Gateway.Routes.{Payload, Method, handle_add_route, handle_delete_route, handle}
use mini_gateway.Gateway.Routes.Admin.{run}
use mini_gateway.Gateway.Routes.Edits.{edits, run-edits}

abbrev rule : String → RoutingRule
rule target = record {
  target = target;
  weight = pos 1;
  env = "stable";
  protocol = "http";
  health_check_path = "";
}

abbrev rules : Dict RoutingRules
rules = ("/a", rule "http://a" ∷ []) ∷ []

abbrev add_b : Option Payload
add_b = some (record { path = "/b"; rules = some (rule "http://b" ∷ []) })

-- A deletion that names only the path is refused: the rules are required too.
delete_without_rules :
    handle handle_delete_route (some (record { path = "/a"; rules = none })) rules ≡ (400, rules)
unfolding handle
delete_without_rules = refl

rules-HasDistinctKeys : HasDistinctKeys rules
unfolding lookup
rules-HasDistinctKeys = (refl, tt)

abbrev requests : List (Method × Option Payload)
requests = (handle_add_route, add_b) ∷ (handle_delete_route, add_b) ∷ []

run-edits_example :
    let kept = edits "/b" requests (lookup "/b" rules) in
    (lookup "/b" (run requests rules) ≡ kept)
    × (lookup "/b" (get_http_rules (run requests rules)) ≡ view_at keep_http kept)
    × (lookup "/b" (get_grpc_rules (run requests rules)) ≡ view_at keep_grpc kept)
    × (lookup "/b" (get_websocket_rules (run requests rules)) ≡ view_at keep_websocket kept)
run-edits_example = run-edits requests rules "/b" rules-HasDistinctKeys
