-- ===== src/Proxy/Grpc.antt =====
-- internal/core/routing/proxy/grpc_proxy.go: the set-up of the routes and their handler. grpc-gateway's mux and the
-- dial of a target are parameters; what the mux answers is part of a request.
pub mod Backends
mod Tests
use Prim.Native.Char.{code}
use mini_gateway.Common.{
  ℕ, String, Bool, List, [], ◌∷◌, Option, none, some, Dict, lookup, ltb, ◌==◌, str_eq,
  if◌then◌else◌,
}
use mini_gateway.Config.{RoutingRule, RoutingRules, get_grpc_rules}
use mini_gateway.Proxy.WebSocket.{trim_prefix}

-- `backend`: the connection that the mux uses for a path, if a handler is registered for it.
pub record Mux (C M : Type 0) : Type 0 where
  pub new : M
  pub register : M → C → Option M
  pub backend : M → String → Option C

-- A request on a route: its path, and the status that was written while the mux served it, if any.
pub record Request : Type 0 where
  pub route : String
  pub path : String
  pub written : Option ℕ

-- What the mux was asked for, the connection in use, and the call of `UpdateRequestCount`.
pub record Served (C : Type 0) : Type 0 where
  pub forwarded_path : String
  pub connection : Option C
  pub counted : String × Bool

-- `strings.TrimSuffix` of a slash.
unfoldable pub trim_slash : String → String
trim_slash String.[] = ""
trim_slash (String.◌∷◌ c String.[]) = if code c == b'/' then "" else String.◌∷◌ c ""
trim_slash (String.◌∷◌ c (String.◌∷◌ d s)) = String.◌∷◌ c (trim_slash (String.◌∷◌ d s))

unfoldable pub adjusted_path : String → String → String
unfolding trim_slash trim_prefix
adjusted_path prefix path = trim_prefix (trim_slash path) prefix

-- The status that `statusRecorder` has kept.
abbrev pub recorded : Option ℕ → ℕ
recorded none = 200
recorded (some status) = status

unfoldable pub first_target : RoutingRules → String
first_target [] = ""
first_target (rule ∷ rules) =
    if str_eq rule.protocol "grpc" then rule.target else first_target rules

-- No rules for a route that is not in the map.
abbrev pub rules_of : Option RoutingRules → RoutingRules
rules_of none = []
rules_of (some rules) = rules

abbrev pub kept_or : {M : Type 0} → M → Option M → M
kept_or m none = m
kept_or m (some m') = m'

module _ {C M : Type 0} (mux : Mux C M) (dial : String → Option C) where
  abbrev registered : M → Option C → M
  registered m none = m
  registered m (some conn) = kept_or m (mux.register m conn)

  unfoldable pub setup_rule : RoutingRule → M → M
  setup_rule rule m = if str_eq rule.protocol "grpc" then registered m (dial rule.target) else m

  unfoldable pub setup_rules : RoutingRules → M → M
  unfolding setup_rule
  setup_rules [] m = m
  setup_rules (rule ∷ rules) m = setup_rules rules (setup_rule rule m)

  unfoldable pub setup_each : Dict RoutingRules → M → M
  unfolding setup_rules
  setup_each [] m = m
  setup_each (route ∷ routes) m = setup_each routes (setup_rules route.1 m)

  -- The mux after `SetupGRPCProxy`.
  unfoldable pub setup_grpc_proxy : Dict RoutingRules → M
  unfolding setup_each get_grpc_rules
  setup_grpc_proxy rules = setup_each (get_grpc_rules rules) mux.new

  -- The handler of a route.
  unfoldable pub handle : String → Dict RoutingRules → Request → Served C
  unfolding setup_grpc_proxy adjusted_path first_target get_grpc_rules lookup
  handle prefix rules r = record {
    forwarded_path = adjusted_path prefix r.path;
    connection = mux.backend (setup_grpc_proxy rules) (adjusted_path prefix r.path);
    counted = (
      first_target (rules_of (lookup r.route (get_grpc_rules rules))),
      ltb (recorded r.written) 400,
    );
  }
