-- ===== src/LoadBalancer/Consul/Tests.antt =====
-- A Consul balancer whose key is first missing, then holds rules, then a value that is not well formed.
use mini_gateway.Common.{
  ◌<◌, length, Elem, arith, ◌≡◌, String, List, [], ◌∷◌, none, some, Dict, lookup, returns, refl,
}
use mini_gateway.LoadBalancer.Consul.{
  Poll, failed, fetched, new_consul_balancer, watch_rules, select_target,
}
use mini_gateway.LoadBalancer.Consul.Watch.{last_good, candidates, select_target-watched}

abbrev rules : Dict (List String)
rules = ("/api", "http://a" ∷ "http://b" ∷ []) ∷ []

abbrev polls : List Poll
polls = failed ∷ fetched 7 (some rules) ∷ fetched 9 none ∷ failed ∷ []

abbrev offered : List String
offered = "http://c" ∷ []

-- The clock is odd: the second target.
second :
    select_target (watch_rules polls new_consul_balancer) offered "/api" 1700000001
    ≡ returns "http://b"
unfolding select_target watch_rules new_consul_balancer lookup
second = refl

few : length (candidates (lookup "/api" (last_good [] polls)) offered) < 4294967296
unfolding lookup
few = omega arith

select_target-watched_example :
    (0 < length (candidates (lookup "/api" (last_good [] polls)) offered)
      → (t : String) × (select_target
            (watch_rules polls new_consul_balancer)
            offered
            "/api"
            1700000001
          ≡ returns t)
        × Elem t (candidates (lookup "/api" (last_good [] polls)) offered))
    × (candidates (lookup "/api" (last_good [] polls)) offered ≡ []
        → select_target (watch_rules polls new_consul_balancer) offered "/api" 1700000001
          ≡ returns "")
select_target-watched_example = select_target-watched polls "/api" offered 1700000001 few
