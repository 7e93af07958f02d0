-- ===== src/LoadBalancer/Factory/Streams.antt =====
-- What the balancers that the factory makes do for a path with WebSocket rules. The WebSocket proxy makes
-- its balancer by the same factory, and the rules of the weighted one are those of the HTTP view.
use native.Mathlib.Nat.{mod-eq_of_lt}
use mathlib.Core.Option
use mini_gateway.Common.{
  ℕ, ◌%◌, ◌≡◌, ◌⊎◌, inl, inr, String, Bool, true, List, All, [], ◌∷◌, map, none, some, Dict, lookup,
  lookup-map, returns, length, refl, arith, ap, ◌∙◌,
}
use mini_gateway.Config.{RoutingRules, get_http_rules, has_websocket_rule}
use mini_gateway.Config.Views.{HasDistinctKeys, views_lem}
use mini_gateway.LoadBalancer.{Request, serve}
use mini_gateway.LoadBalancer.Weighted
use mini_gateway.LoadBalancer.Weighted.{WeightedRoundRobin, new_weighted_round_robin, init_state}
use mini_gateway.LoadBalancer.Factory.{
  Balancer, weighted, target_weight, build_weighted_round_robin_rules, init_load_balancer,
  interface,
}

-- A path without a state: the first target, and no change.
weighted-unknown :
    (wrr : WeightedRoundRobin) (target : String) (targets : List String) (path : String)
    → lookup path wrr.states ≡ none
    → Weighted.select_target wrr (target ∷ targets) path ≡ (returns target, wrr)
unfolding Weighted.select_target Weighted.select_by_path
weighted-unknown wrr target [] path e = refl
weighted-unknown wrr target (t ∷ ts) path e =
    let nought : 0 % length (target ∷ t ∷ ts) ≡ 0 = mod-eq_of_lt (omega arith) in
    rw (e, nought) (ground arith)

no_http_rules :
    (rules : Dict RoutingRules) (path : String) (ws_rules : RoutingRules)
    → HasDistinctKeys rules
    → lookup path rules ≡ some ws_rules
    → has_websocket_rule ws_rules ≡ true
    → lookup path (get_http_rules rules) ≡ none
no_http_rules rules path ws_rules d e ws = (views_lem rules path d).0 ∙ rw e (ground (arith, ws))

no_state :
    (rules : Dict RoutingRules) (path : String)
    → lookup path (get_http_rules rules) ≡ none
    → lookup path (new_weighted_round_robin (build_weighted_round_robin_rules rules)).states ≡ none
unfolding new_weighted_round_robin build_weighted_round_robin_rules
no_state rules path e =
    lookup-map init_state path (build_weighted_round_robin_rules rules)
    ∙ ap (Option.map init_state) (
        lookup-map (map target_weight) path (get_http_rules rules)
        ∙ ap (Option.map (map target_weight)) e)

weighted_by_name :
    (consul_client : Bool) (algorithm : String) (rules : Dict RoutingRules)
    → (algorithm ≡ "weighted-round-robin") ⊎ (algorithm ≡ "weighted_round_robin")
    → init_load_balancer consul_client algorithm rules
      ≡ weighted (new_weighted_round_robin (build_weighted_round_robin_rules rules))
unfolding init_load_balancer
weighted_by_name consul_client algorithm rules (inl e) = rw e refl
weighted_by_name consul_client algorithm rules (inr e) = rw e refl

module _ (hash : List ℕ → ℕ) (now : ℕ) where
  serve-unknown :
      (wrr : WeightedRoundRobin) (target : String) (targets : List String) (path : String)
      → lookup path wrr.states ≡ none
      → (b : Balancer) (requests : List Request) → All (λ r. r.path ≡ path) requests
      → serve (interface hash now b) (weighted wrr) (target ∷ targets) requests
        ≡ (map (λ r. returns target) requests, weighted wrr)
  unfolding serve interface
  serve-unknown wrr target targets path e b [] same = refl
  serve-unknown wrr target targets path e b (r ∷ rs) same =
      let first = weighted-unknown wrr target targets path e in
      rw (same.0, first) (rw (serve-unknown wrr target targets path e b rs same.1) refl)

  -- The weighted balancer does not balance WebSocket routes. For a path that has a rule for WebSocket
  -- (with one entry for a path), every one of any number of requests is given the first of the offered
  -- targets, whatever the weights are.
  pub serve-first_target :
      (consul_client : Bool) (algorithm : String)
      → (algorithm ≡ "weighted-round-robin") ⊎ (algorithm ≡ "weighted_round_robin")
      → (rules : Dict RoutingRules) (path : String) (path_rules : RoutingRules)
      → HasDistinctKeys rules
      → lookup path rules ≡ some path_rules
      → has_websocket_rule path_rules ≡ true
      → (target : String) (targets : List String) (requests : List Request)
      → All (λ r. r.path ≡ path) requests
      → (serve
          (interface hash now (init_load_balancer consul_client algorithm rules))
          (init_load_balancer consul_client algorithm rules)
          (target ∷ targets)
          requests).0
        ≡ map (λ r. returns target) requests
  serve-first_target consul_client algorithm named rules path path_rules d found ws target targets
        requests same =
      let made = weighted_by_name consul_client algorithm rules named in
      let unknown = no_state rules path (no_http_rules rules path path_rules d found ws) in
      let wrr = new_weighted_round_robin (build_weighted_round_robin_rules rules) in
      rw made
        (ap (λ p. p.0) (serve-unknown wrr target targets path unknown (weighted wrr) requests same))
