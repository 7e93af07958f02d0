-- ===== src/Config/Validate.antt =====
-- config/config.go: the checks of the gRPC and WebSocket sections. `url.Parse` enters as a test that
-- tells whether it parses; an error is a value, `none` is no error.
pub mod Accepts
pub mod Warns
use Prim.Native.String.{len}
use text.Mathlib.Text.{starts_with}
use mini_gateway.Common.{
  ℕ, suc, String, Bool, true, false, not, ◌&&◌, ◌||◌, List, [], ◌∷◌, Option, none, some, Dict, any,
  length, ◌==◌, ltb, leb, str_eq, codes, if◌then◌else◌,
}
use mini_gateway.Common.Int.{ℤ, pos, negsuc, ltb_ℤ}
use mini_gateway.Config.{RoutingRule, RoutingRules, get_websocket_rules, get_grpc_rules}

pub record WebSocket : Type 0 where
  pub enabled : Bool
  pub max_idle_conns : ℤ
  pub idle_timeout : ℤ
  pub prefix : String

pub record GrpcConfig : Type 0 where
  pub enabled : Bool
  pub prefix : String
  pub allowed_origins : List String

pub data ConfigError : Type 0 where
  prefix_short prefix_invalid no_rules negative_idle_conns idle_timeout_not_positive : ConfigError
  bad_scheme bad_target : String → String → ConfigError
  bad_origin : String → ConfigError

-- The runes of ".." "*" "?".
abbrev pub is_reserved : ℕ → Bool
is_reserved c = c == b'.' || c == b'*' || c == b'?'

-- The checks that both prefixes go through, then the rest.
unfoldable pub check_prefix : String → Option ConfigError → Option ConfigError
check_prefix prefix rest =
    if str_eq prefix "" || ltb (len prefix) 5
    then some prefix_short
    else if any is_reserved (codes prefix)
    then some prefix_invalid
    else rest

module _ (parses : String → Bool) where
  unfoldable pub check_target : String → RoutingRule → Option ConfigError
  check_target path rule =
      if not (starts_with rule.target "ws://") && not (starts_with rule.target "wss://")
      then some (bad_scheme path rule.target)
      else if not (parses rule.target)
      then some (bad_target path rule.target)
      else none

  -- The first error of two loops, one inside the other.
  abbrev or_else : Option ConfigError → Option ConfigError → Option ConfigError
  or_else none later = later
  or_else (some e) later = some e

  unfoldable pub check_targets : String → RoutingRules → Option ConfigError
  unfolding check_target
  check_targets path [] = none
  check_targets path (rule ∷ rules) = or_else (check_target path rule) (check_targets path rules)

  unfoldable pub check_paths : Dict RoutingRules → Option ConfigError
  unfolding check_targets
  check_paths [] = none
  check_paths ((path, rules) ∷ rest) = or_else (check_targets path rules) (check_paths rest)

  -- The checks below the prefix.
  unfoldable pub check_websocket_rest : WebSocket → Dict RoutingRules → Option ConfigError
  check_websocket_rest ws ws_rules =
      if length ws_rules == 0
      then some no_rules
      else if ltb_ℤ ws.max_idle_conns (pos 0)
      then some negative_idle_conns
      else if ltb_ℤ (pos 0) ws.idle_timeout
      then check_paths ws_rules
      else some idle_timeout_not_positive

  unfoldable pub validate_websocket_config : WebSocket → Dict RoutingRules → Option ConfigError
  validate_websocket_config ws rules =
      if ws.enabled
      then check_prefix ws.prefix (check_websocket_rest ws (get_websocket_rules rules))
      else none

  unfoldable pub check_origins : List String → Option ConfigError
  check_origins [] = none
  check_origins (origin ∷ origins) =
      let rest = check_origins origins in
      if str_eq origin "*" then rest else if parses origin then rest else some (bad_origin origin)

  unfoldable pub check_grpc_rest : GrpcConfig → Dict RoutingRules → Option ConfigError
  check_grpc_rest grpc grpc_rules =
      if length grpc_rules == 0 then some no_rules else check_origins grpc.allowed_origins

  unfoldable pub validate_grpc_config : GrpcConfig → Dict RoutingRules → Option ConfigError
  validate_grpc_config grpc rules =
      if grpc.enabled
      then check_prefix grpc.prefix (check_grpc_rest grpc (get_grpc_rules rules))
      else none

  -- The warnings of the loop over the origins, which ends at an error.
  unfoldable pub origin_warnings : List String → ℕ
  origin_warnings [] = 0
  origin_warnings (origin ∷ origins) =
      let rest = origin_warnings origins in
      if str_eq origin "*" then suc rest else if parses origin then rest else 0

  abbrev if_checked : Option ConfigError → ℕ → ℕ
  if_checked none n = n
  if_checked (some e) n = 0

  -- The messages that `validateGRPCConfig` logs.
  unfoldable pub grpc_warnings : GrpcConfig → Dict RoutingRules → ℕ
  grpc_warnings grpc rules =
      if grpc.enabled
      then if_checked
          (check_prefix grpc.prefix
            (if length (get_grpc_rules rules) == 0 then some no_rules else none))
          (origin_warnings grpc.allowed_origins)
      else 0
