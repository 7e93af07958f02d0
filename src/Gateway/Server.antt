-- ===== src/Gateway/Server.antt =====
-- cmd/gateway/main.go: how the server is put together at the start and after each new configuration.
-- gin's engine is the list of the calls made on it, in order; a pointer to an engine is its number. An
-- exit of the process is `none`. What the plugins directory holds is part of the configuration here,
-- as the names of the plugins that load.
pub mod Served
pub mod Exits
pub mod Order
mod Tests
use mini_gateway.Common.{
  ℕ, zero, suc, ◌+◌, String, Bool, true, false, not, ◌&&◌, List, [], ◌∷◌, ◌++◌, map, Option, none,
  some, Dict, length, ◌==◌, str_eq, if◌then◌else◌,
}
use mini_gateway.Config.{RoutingRules}
use mini_gateway.LoadBalancer.Factory.{Balancer, init_load_balancer}
use mini_gateway.Router.Setup.{validate_rules}

pub record Middlewares : Type 0 where
  pub rate_limit : Bool
  pub ip_acl : Bool
  pub anti_injection : Bool
  pub auth : Bool
  pub breaker : Bool
  pub tracing : Bool

-- What the set-up reads of `config.Config`.
pub record Config : Type 0 where
  pub middleware : Middlewares
  pub algorithm : String
  pub plugins : List String
  pub pprof_enabled : Bool
  pub prometheus_enabled : Bool
  pub prometheus_path : String
  pub static_file_path : String
  pub load_balancer : String
  pub consul_client : Bool
  -- `Routing.Engine`.
  pub engine : String
  pub rules : Dict RoutingRules

pub data Handler : Type 0 where
  recovery request_metrics cache ip_acl anti_injection token_bucket leaky_bucket : Handler
  breaker tracing : Handler

-- A call on an engine: `Use`, the `Setup` of a plugin, a route with a handler of its own, or the dynamic routes with the
-- authentication in front of them or not.
pub data Call : Type 0 where
  use_handler : Handler → Call
  plugin_setup : String → Call
  route : String → String → Call
  dynamic : Bool → Dict RoutingRules → Call

abbrev when : Bool → Call → List Call
when true c = c ∷ []
when false c = []

-- `validateConfig`: whether the process goes on.
unfoldable pub validate_config : Config → Bool
validate_config cfg = not (not (str_eq cfg.load_balancer "consul") && length cfg.rules == 0)

-- `setupGinRouter`.
abbrev pub setup_gin_router : List Call
setup_gin_router = use_handler recovery ∷ use_handler request_metrics ∷ []

-- The switch over the algorithm.
unfoldable pub limiter_calls : Config → Option (List Call)
limiter_calls cfg =
    if cfg.middleware.rate_limit
    then if str_eq cfg.algorithm "token_bucket"
      then some (use_handler token_bucket ∷ [])
      else if str_eq cfg.algorithm "leaky_bucket"
      then some (use_handler leaky_bucket ∷ [])
      else none
    else some []

abbrev with_limiter : Config → Option (List Call) → Option (List Call)
with_limiter cfg none = none
with_limiter cfg (some limiter) = some (
    setup_gin_router
    ++ (use_handler cache
        ∷ (map plugin_setup cfg.plugins
            ++ (when cfg.middleware.ip_acl (use_handler ip_acl)
                ++ (when cfg.middleware.anti_injection (use_handler anti_injection)
                    ++ (limiter
                        ++ (when cfg.middleware.breaker (use_handler breaker)
                            ++ when cfg.middleware.tracing (use_handler tracing))))))))

-- The calls of `setupMiddleware` on its engine, in order.
unfoldable pub middleware_calls : Config → Option (List Call)
unfolding limiter_calls
middleware_calls cfg = with_limiter cfg (limiter_calls cfg)

-- The calls of `setupRoutes`.
unfoldable pub route_calls : Config → List Call
route_calls cfg =
    route "GET" "/health"
    ∷ route "GET" "/status"
    ∷ route "POST" "/login"
    ∷ (when cfg.pprof_enabled (route "GET" "/debug/pprof/*profile")
        ++ (route "POST" "/breaker/disable"
            ∷ (when cfg.prometheus_enabled (route "GET" cfg.prometheus_path)
                ++ (when (not (str_eq cfg.static_file_path "")) (route "GET" "/static/*filepath")
                    ++ (route "POST" "/api/routes/add"
                        ∷ route "PUT" "/api/routes/update"
                        ∷ route "DELETE" "/api/routes/delete"
                        ∷ route "GET" "/api/routes/list"
                        ∷ route "POST" "/api/config/save"
                        ∷ dynamic cfg.middleware.auth cfg.rules
                        ∷ [])))))

-- `router` is the engine that `s.Router` points to, and `listening` the one on which `Run` was called.
pub record Server : Type 0 where
  pub engines : List (List Call)
  pub router : ℕ
  pub listening : Option ℕ
  pub balancer : Balancer
  pub health_rules : Dict RoutingRules

-- More calls on one engine.
unfoldable pub call_on : ℕ → List Call → List (List Call) → List (List Call)
call_on i calls [] = []
call_on zero calls (e ∷ es) = (e ++ calls) ∷ es
call_on (suc i) calls (e ∷ es) = e ∷ call_on i calls es

abbrev on_new_engine : Server → Option (List Call) → Option Server
on_new_engine s none = none
on_new_engine s (some calls) =
    some (record s { engines = s.engines ++ calls ∷ []; router = length s.engines })

unfoldable pub setup_middleware : Config → Server → Option Server
unfolding middleware_calls
setup_middleware cfg s = on_new_engine s (middleware_calls cfg)

-- The last of its calls, `routing.Setup`, ends the process when a route does not fit the engine.
unfoldable pub setup_routes : Config → Server → Option Server
unfolding call_on route_calls validate_rules
setup_routes cfg s =
    if validate_rules cfg.engine cfg.rules
    then some (record s { engines = call_on s.router (route_calls cfg) s.engines })
    else none

abbrev pub with_routes : Config → Option Server → Option Server
unfolding init_load_balancer
with_routes cfg none = none
with_routes cfg (some s) = some (record s {
  balancer = init_load_balancer cfg.consul_client cfg.load_balancer cfg.rules;
  health_rules = cfg.rules;
})

abbrev set_up : Config → Option Server → Option Server
unfolding setup_routes
set_up cfg none = none
set_up cfg (some s) = with_routes cfg (setup_routes cfg s)

-- `initServer`: the engine that it makes first is left unused by `setupMiddleware`.
unfoldable pub init_server : Config → Option Server
unfolding validate_config setup_middleware set_up init_load_balancer
init_server cfg =
    if validate_config cfg
    then set_up cfg (
        setup_middleware cfg (record {
          engines = setup_gin_router ∷ [];
          router = 0;
          listening = none;
          balancer = init_load_balancer cfg.consul_client cfg.load_balancer cfg.rules;
          health_rules = cfg.rules;
        }))
    else none

-- `s.Router.Run` in `start`.
unfoldable pub start : Server → Server
start s = record s { listening = some s.router }

-- One round of `refreshConfig`.
unfoldable pub refresh_config : Config → Server → Option Server
unfolding setup_middleware set_up
refresh_config cfg s = set_up cfg (setup_middleware cfg s)

abbrev next_round : Option Server → (Server → Option Server) → Option Server
next_round none f = none
next_round (some s) f = f s

unfoldable pub refresh_all : List Config → Server → Option Server
unfolding refresh_config
refresh_all [] s = some s
refresh_all (cfg ∷ cfgs) s = next_round (refresh_config cfg s) (refresh_all cfgs)

-- `main`: the start, and then the configurations that come.
unfoldable pub run : Config → List Config → Option Server
unfolding init_server start refresh_all
run cfg cfgs = next_round (init_server cfg) (λ s. refresh_all cfgs (start s))

abbrev pub one_if : Bool → ℕ
one_if true = 1
one_if false = 0

-- The calls of `GetConfig` while a configuration is set up: one each by the access lists, the rate
-- limiter, the breaker and the authentication.
unfoldable pub config_reads : Config → ℕ
config_reads cfg =
    one_if cfg.middleware.ip_acl
    + (one_if cfg.middleware.rate_limit
        + (one_if cfg.middleware.breaker + one_if cfg.middleware.auth))
