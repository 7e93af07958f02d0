-- ===== src/Proxy/Selection/Tests.antt =====
-- Two stable rules and a canary, behind a Ketama balancer.
use mini_gateway.Common.{
  ℕ, ◌≡◌, refl, String, true, false, List, [], ◌∷◌, some, returns, arith, length, get_elem?, map,
}
use mini_gateway.Common.Int.{pos}
use mini_gateway.Config.{RoutingRule, RoutingRules, Grayscale}
use mini_gateway.LoadBalancer.{Request}
use mini_gateway.LoadBalancer.Ketama.{Ketama, ketama}
use mini_gateway.LoadBalancer.Ketama.Ring.{IsRing}
use mini_gateway.Proxy.Selection.{select_target, canary_env, weighted_random_select}
use mini_gateway.Proxy.Selection.Random.{weighted, repeated, weighted_random_select-repeated}
use mini_gateway.Proxy.Selection.Balancers.{ketama-Offers}
use mini_gateway.Proxy.Selection.Canary.{IsSentToCanary, select_target-canary}

abbrev rule : String → String → RoutingRule
rule target env = record {
  target = target;
  weight = pos 1;
  env = env;
  protocol = "http";
  health_check_path = "";
}

abbrev rules : RoutingRules
rules = rule "http://a" "stable" ∷ rule "http://b" "canary" ∷ rule "http://c" "stable" ∷ []

abbrev grayscale : Grayscale
grayscale = record {
  enabled = true;
  weighted_random = false;
  default_env = "stable";
  canary_env = "canary";
}

abbrev get_api : Request
get_api = record { path = "/api"; remote_addr = "10.0.0.1:80" }

abbrev sum_codes : List ℕ → ℕ
sum_codes cs = length cs

abbrev fresh : Ketama
fresh = record { nodes = []; hash_ring = []; hash_map = []; replicas = 2 }

select_target-canary_example :
    IsSentToCanary rules
      (select_target (ketama sum_codes) grayscale fresh get_api canary_env (pos 0) rules)
select_target-canary_example =
    select_target-canary (ketama sum_codes) IsRing (ketama-Offers sum_codes) grayscale fresh get_api
      (pos 0) rules (record { sorted = tt; owned = tt }) refl refl (omega arith)
      (refl, (refl, (refl, tt))) (λ on. cc)

abbrev weights : List (ℕ × RoutingRule)
weights = (1, rule "http://a" "stable") ∷ (2, rule "http://b" "canary") ∷ []

weighted_random_select-repeated_example :
    (found : RoutingRule) × (weighted_random_select (pos 2) (map weighted weights)
      ≡ returns (some found))
    × (get_elem? (repeated weights) 2 ≡ some found)
weighted_random_select-repeated_example =
    weighted_random_select-repeated weights 2 (omega arith) (omega arith) (omega arith)
