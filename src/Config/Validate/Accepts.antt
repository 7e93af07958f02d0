-- ===== src/Config/Validate/Accepts.antt =====
-- Which sections pass the checks.
use Prim.Native.String.{len}
use text.Mathlib.Text.{starts_with}
use mini_gateway.Common.{
  ℕ, ◌≤◌, ◌<◌, ◌≡◌, ◌≢◌, ◌↔◌, ◌⊎◌, refl, ap, String, Bool, true, false, List, [], ◌∷◌, none, Option,
  Dict, All, length, any, arith, eq_iff, codes,
}
use mini_gateway.Common.Int.{pos, ltb_ℤ}
use mini_gateway.Config.{RoutingRule, RoutingRules, get_websocket_rules, get_grpc_rules}
use mini_gateway.Config.Validate.{
  WebSocket, GrpcConfig, ConfigError, is_reserved, check_prefix, check_target, check_targets,
  check_websocket_rest, check_grpc_rest, check_paths, check_origins, validate_websocket_config,
  validate_grpc_config,
}

-- At least five bytes, and none of the runes ". * ?".
abbrev pub IsPrefixOk : String → Type 0
IsPrefixOk prefix =
    (5 ≤ len prefix) × All (λ c. (c ≢ b'.') × (c ≢ b'*') × (c ≢ b'?')) (codes prefix)

any-is_reserved :
    (cs : List ℕ)
    → (any is_reserved cs ≡ false) ↔ All (λ c. (c ≢ b'.') × (c ≢ b'*') × (c ≢ b'?')) cs
any-is_reserved [] = (λ e. tt, λ h. refl)
any-is_reserved (c ∷ cs) = ground (arith, any-is_reserved cs)

len_of_empty : (s : String) → s ≡ "" → len s ≡ 0
len_of_empty s e = ap len e

check_prefix_iff :
    (prefix : String) (rest : Option ConfigError)
    → (check_prefix prefix rest ≡ none) ↔ (IsPrefixOk prefix × (rest ≡ none))
unfolding check_prefix
check_prefix_iff prefix rest =
    ground (arith, any-is_reserved (codes prefix), eq_iff prefix "", len_of_empty prefix)

module _ (parses : String → Bool) where
  abbrev pub IsTargetOk : RoutingRule → Type 0
  IsTargetOk rule =
      ((starts_with rule.target "ws://" ≡ true) ⊎ (starts_with rule.target "wss://" ≡ true))
      × (parses rule.target ≡ true)

  check_target_iff :
      (path : String) (rule : RoutingRule)
      → (check_target parses path rule ≡ none) ↔ IsTargetOk rule
  unfolding check_target
  check_target_iff path rule = ground arith

  check_targets_iff :
      (path : String) (rules : RoutingRules)
      → (check_targets parses path rules ≡ none) ↔ All IsTargetOk rules
  unfolding check_targets
  check_targets_iff path [] = (λ e. tt, λ h. refl)
  check_targets_iff path (rule ∷ rules) =
      ground (arith, check_target_iff path rule, check_targets_iff path rules)

  check_paths_iff :
      (rules : Dict RoutingRules)
      → (check_paths parses rules ≡ none) ↔ All (λ e. All IsTargetOk e.1) rules
  unfolding check_paths
  check_paths_iff [] = (λ e. tt, λ h. refl)
  check_paths_iff (e ∷ rest) = ground (arith, check_targets_iff e.0 e.1, check_paths_iff rest)

  check_websocket_rest_iff :
      (ws : WebSocket) (ws_rules : Dict RoutingRules)
      → (check_websocket_rest parses ws ws_rules ≡ none) ↔ (
          (0 < length ws_rules)
          × (ltb_ℤ ws.max_idle_conns (pos 0) ≡ false)
          × (ltb_ℤ (pos 0) ws.idle_timeout ≡ true)
          × All (λ e. All IsTargetOk e.1) ws_rules)
  unfolding check_websocket_rest
  check_websocket_rest_iff ws ws_rules = ground (arith, check_paths_iff ws_rules)

  check_origins_iff :
      (origins : List String)
      → (check_origins parses origins ≡ none) ↔ All (λ o. (o ≡ "*") ⊎ (parses o ≡ true)) origins
  unfolding check_origins
  check_origins_iff [] = (λ e. tt, λ h. refl)
  check_origins_iff (o ∷ os) = ground (arith, check_origins_iff os, eq_iff o "*")

  check_grpc_rest_iff :
      (grpc : GrpcConfig) (grpc_rules : Dict RoutingRules)
      → (check_grpc_rest parses grpc grpc_rules ≡ none)
        ↔ ((0 < length grpc_rules) × All (λ o. (o ≡ "*") ⊎ (parses o ≡ true)) grpc.allowed_origins)
  unfolding check_grpc_rest
  check_grpc_rest_iff grpc grpc_rules = ground (arith, check_origins_iff grpc.allowed_origins)

  -- A WebSocket section that is switched on passes exactly when its prefix has five bytes or more and
  -- none of ". * ?", some rule is for WebSocket, the number of idle connections is not negative, the
  -- idle time is positive, and every WebSocket rule's target begins with ws:// or wss:// and parses.
  pub validate_websocket_config_iff :
      (ws : WebSocket) (rules : Dict RoutingRules)
      → ws.enabled ≡ true
      → (validate_websocket_config parses ws rules ≡ none) ↔ (
          IsPrefixOk ws.prefix
          × ((0 < length (get_websocket_rules rules))
              × (ltb_ℤ ws.max_idle_conns (pos 0) ≡ false)
              × (ltb_ℤ (pos 0) ws.idle_timeout ≡ true)
              × All (λ e. All IsTargetOk e.1) (get_websocket_rules rules)))
  unfolding validate_websocket_config
  validate_websocket_config_iff ws rules on =
      let (to, from) =
        check_prefix_iff ws.prefix (check_websocket_rest parses ws (get_websocket_rules rules)) in
      let (to', from') = check_websocket_rest_iff ws (get_websocket_rules rules) in
      simp on (λ e. ((to e).0, to' (to e).1), λ h. from (h.0, from' h.1))

  -- A gRPC section that is switched on passes exactly when its prefix has five bytes or more and none
  -- of ". * ?", some path has a gRPC rule, and every allowed origin is "*" or parses as a URL.
  pub validate_grpc_config_iff :
      (grpc : GrpcConfig) (rules : Dict RoutingRules)
      → grpc.enabled ≡ true
      → (validate_grpc_config parses grpc rules ≡ none) ↔ (
          IsPrefixOk grpc.prefix
          × ((0 < length (get_grpc_rules rules))
              × All (λ o. (o ≡ "*") ⊎ (parses o ≡ true)) grpc.allowed_origins))
  unfolding validate_grpc_config
  validate_grpc_config_iff grpc rules on =
      let (to, from) =
        check_prefix_iff grpc.prefix (check_grpc_rest parses grpc (get_grpc_rules rules)) in
      let (to', from') = check_grpc_rest_iff grpc (get_grpc_rules rules) in
      simp on (λ e. ((to e).0, to' (to e).1), λ h. from (h.0, from' h.1))
