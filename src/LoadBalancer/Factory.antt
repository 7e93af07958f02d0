-- ===== src/LoadBalancer/Factory.antt =====
-- internal/core/loadbalancer/factory.go, with initializeLoadBalancer of http_proxy.go: the balancer that a
-- name of the configuration stands for. Whether a client for Consul's address can be made is an
-- argument.
pub mod Streams
use mini_gateway.Common.{
  ℕ, String, Bool, ◌||◌, List, map, Option, none, some, Dict, Outcome, str_eq, if◌then◌else◌,
}
use mini_gateway.Config.{RoutingRule, RoutingRules, get_http_rules}
use mini_gateway.LoadBalancer.{LoadBalancer, Request}
use mini_gateway.LoadBalancer.RoundRobin
use mini_gateway.LoadBalancer.RoundRobin.{RoundRobin, new_round_robin}
use mini_gateway.LoadBalancer.Weighted
use mini_gateway.LoadBalancer.Weighted.{TargetWeight, WeightedRoundRobin, new_weighted_round_robin}
use mini_gateway.LoadBalancer.Ketama
use mini_gateway.LoadBalancer.Ketama.{Ketama, new_ketama}
use mini_gateway.LoadBalancer.Consul
use mini_gateway.LoadBalancer.Consul.{ConsulBalancer, new_consul_balancer}

pub data Balancer : Type 0 where
  round_robin : RoundRobin → Balancer
  weighted : WeightedRoundRobin → Balancer
  ketama : Ketama → Balancer
  consul : ConsulBalancer → Balancer

abbrev pub target_weight : RoutingRule → TargetWeight
target_weight rule = record { target = rule.target; weight = rule.weight }

unfoldable pub build_weighted_round_robin_rules : Dict RoutingRules → Dict (List TargetWeight)
unfolding get_http_rules
build_weighted_round_robin_rules rules =
    map (λ entry. (entry.0, map target_weight entry.1)) (get_http_rules rules)

-- `none` is an error.
unfoldable pub new_load_balancer : Bool → String → Dict RoutingRules → Option Balancer
unfolding new_round_robin new_ketama new_consul_balancer new_weighted_round_robin
    build_weighted_round_robin_rules
new_load_balancer consul_client algorithm rules =
    if str_eq algorithm "round-robin" || str_eq algorithm "round_robin"
    then some (round_robin new_round_robin)
    else if str_eq algorithm "ketama"
    then some (ketama (new_ketama 160))
    else if str_eq algorithm "consul"
    then if consul_client then some (consul new_consul_balancer) else none
    else if str_eq algorithm "weighted-round-robin" || str_eq algorithm "weighted_round_robin"
    then some (weighted (new_weighted_round_robin (build_weighted_round_robin_rules rules)))
    else none

abbrev or_round_robin : Option Balancer → Balancer
unfolding new_round_robin
or_round_robin none = round_robin new_round_robin
or_round_robin (some b) = b

-- `initializeLoadBalancer`: on an error the proxy takes turns.
unfoldable pub init_load_balancer : Bool → String → Dict RoutingRules → Balancer
unfolding new_load_balancer or_round_robin
init_load_balancer consul_client algorithm rules =
    or_round_robin (new_load_balancer consul_client algorithm rules)

abbrev wrapped : {S : Type 0} → (S → Balancer) → Outcome String × S → Outcome String × Balancer
wrapped c (o, s) = (o, c s)

-- The call of the interface's `SelectTarget`, with Ketama's hash and the clock.
module _ (hash : List ℕ → ℕ) (now : ℕ) where
  unfoldable pub select_target : Balancer → List String → Request → Outcome String × Balancer
  unfolding RoundRobin.select_target Weighted.select_target Ketama.select_target
      Consul.select_target
  select_target (round_robin rr) targets r =
      wrapped round_robin (RoundRobin.round_robin.select_target rr targets r)
  select_target (weighted wrr) targets r =
      wrapped weighted (Weighted.weighted_round_robin.select_target wrr targets r)
  select_target (ketama k) targets r =
      wrapped ketama ((Ketama.ketama hash).select_target k targets r)
  select_target (consul cb) targets r =
      wrapped consul ((Consul.consul now).select_target cb targets r)

  unfoldable pub type_name : Balancer → String
  type_name (round_robin rr) = RoundRobin.round_robin.type_name
  type_name (weighted wrr) = Weighted.weighted_round_robin.type_name
  type_name (ketama k) = (Ketama.ketama hash).type_name
  type_name (consul cb) = (Consul.consul now).type_name

-- The interface that a caller holds after it made the balancer `b`.
abbrev pub interface : (List ℕ → ℕ) → ℕ → Balancer → LoadBalancer Balancer
unfolding select_target type_name
interface hash now b = record {
  select_target = select_target hash now;
  type_name = type_name hash now b;
}
