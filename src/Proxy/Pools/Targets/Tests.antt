-- ===== src/Proxy/Pools/Targets/Tests.antt =====
-- Two routes with one target each.
use mini_gateway.Common.{◌≡◌, refl, ℕ, ◌+◌, String, List, [], ◌∷◌, Elem, returns, arith, map}
use mini_gateway.Common.Int.{pos}
use mini_gateway.Config.{RoutingRule, RoutingRules}
use mini_gateway.Proxy.Pools.Targets.{no_memory, new_shared, select_with_load_balancer}
use mini_gateway.Proxy.Pools.Targets.Stale.{select_with_load_balancer-stale}

abbrev rule : String → RoutingRule
rule target = record {
  target = target;
  weight = pos 1;
  env = "stable";
  protocol = "http";
  health_check_path = "";
}

abbrev sum_codes : List ℕ → ℕ
sum_codes [] = 0
sum_codes (c ∷ cs) = c + sum_codes cs

abbrev orders : RoutingRules
orders = rule "http://orders" ∷ []

abbrev users : RoutingRules
users = rule "http://users" ∷ []

-- A request for the users goes to the orders.
select_with_load_balancer-stale_example :
    (t : String) × ((let (_, shared, m) =
          select_with_load_balancer sum_codes 8 orders "10.0.0.1:80" (new_shared 2) no_memory in
        (select_with_load_balancer sum_codes 8 users "10.0.0.2:80" shared m).0)
      ≡ returns t)
    × Elem t (map (λ r. r.target) orders)
select_with_load_balancer-stale_example =
    select_with_load_balancer-stale sum_codes 8 orders users "10.0.0.1:80" "10.0.0.2:80" 2
      (omega arith) (omega arith) refl
