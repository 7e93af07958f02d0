-- ===== src/Gateway/Routes.antt =====
-- cmd/gateway/main.go: the handlers that add, change and delete a route at run time. The rules are those
-- of the configuration in force, which the handlers change in place; the hand-over to the channel of
-- new configurations is left out.
pub mod Admin
pub mod Edits
mod Tests
use mini_gateway.Common.{
  ℕ, String, Bool, true, false, List, [], ◌∷◌, Option, none, some, Dict, lookup, insert, delete,
  str_eq, if◌then◌else◌,
}
use mini_gateway.Config.{RoutingRules}

-- A body that is JSON, as its two fields. Both are required: the path is not the empty text.
pub record Payload : Type 0 where
  pub path : String
  pub rules : Option RoutingRules

unfoldable pub bind_rules : String → Option RoutingRules → Option (String × RoutingRules)
bind_rules path none = none
bind_rules path (some rules) = if str_eq path "" then none else some (path, rules)

-- `none` is a body that is not JSON.
unfoldable pub bind_json : Option Payload → Option (String × RoutingRules)
unfolding bind_rules
bind_json none = none
bind_json (some p) = bind_rules p.path p.rules

-- The write of an exists check, and the two statuses.
abbrev pub exists : Option RoutingRules → Bool
exists none = false
exists (some rules) = true

unfoldable pub add_route :
    Option (String × RoutingRules) → Dict RoutingRules → ℕ × Dict RoutingRules
unfolding lookup insert
add_route none rules = (400, rules)
add_route (some (path, new)) rules =
    if exists (lookup path rules) then (409, rules) else (200, insert path new rules)

unfoldable pub update_route :
    Option (String × RoutingRules) → Dict RoutingRules → ℕ × Dict RoutingRules
unfolding lookup insert
update_route none rules = (400, rules)
update_route (some (path, new)) rules =
    if exists (lookup path rules) then (200, insert path new rules) else (404, rules)

unfoldable pub delete_route :
    Option (String × RoutingRules) → Dict RoutingRules → ℕ × Dict RoutingRules
unfolding lookup delete
delete_route none rules = (400, rules)
delete_route (some (path, new)) rules =
    if exists (lookup path rules) then (200, delete path rules) else (404, rules)

pub data Method : Type 0 where
  handle_add_route handle_update_route handle_delete_route : Method

unfoldable pub handle : Method → Option Payload → Dict RoutingRules → ℕ × Dict RoutingRules
unfolding bind_json add_route update_route delete_route
handle handle_add_route body rules = add_route (bind_json body) rules
handle handle_update_route body rules = update_route (bind_json body) rules
handle handle_delete_route body rules = delete_route (bind_json body) rules
