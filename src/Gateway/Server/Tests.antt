-- ===== src/Gateway/Server/Tests.antt =====
-- A server that starts with one route and is given a second one by a new configuration.
use mini_gateway.Common.{
  ◌≡◌, ◌↔◌, ◌++◌, Bool, true, false, String, List, [], ◌∷◌, Option, none, some, Dict, All, refl,
}
use mini_gateway.Common.Int.{pos}
use mini_gateway.Config.{RoutingRules}
use mini_gateway.Gateway.Server.{
  Config, Call, use_handler, Handler, Server, middleware_calls, route_calls, config_reads, run,
}
use mini_gateway.Gateway.Server.Served.{
  listening_calls, balancer_for, with_engine, first_server, run-listening,
}
use mini_gateway.Gateway.Server.Order.{handlers_run, handlers_run-cache_hit}
use mini_gateway.Gateway.Server.Exits.{HasRoutes, CanSetUp, run_iff}

abbrev rules : String → RoutingRules
rules target =
    record { target = target; weight = pos 1; env = ""; protocol = "http"; health_check_path = "" }
    ∷ []

abbrev config : Dict RoutingRules → String → Config
config routes algorithm = record {
  middleware = record {
    rate_limit = true;
    ip_acl = true;
    anti_injection = false;
    auth = true;
    breaker = false;
    tracing = false;
  };
  algorithm = algorithm;
  plugins = "log" ∷ [];
  pprof_enabled = false;
  prometheus_enabled = true;
  prometheus_path = "/metrics";
  static_file_path = "";
  load_balancer = "round_robin";
  consul_client = false;
  engine = "gin";
  rules = routes;
}

abbrev old : Config
old = config (("/a", rules "http://a") ∷ []) "token_bucket"

abbrev new : Config
new = config (("/a", rules "http://a") ∷ ("/b", rules "http://b") ∷ []) "leaky_bucket"

abbrev unknown : Config
unknown = config (("/a", rules "http://a") ∷ []) "fixed_window"

-- The engine's calls in the order of the code.
middleware_order :
    middleware_calls old
    ≡ some (
        use_handler Handler.recovery
        ∷ use_handler Handler.request_metrics
        ∷ use_handler Handler.cache
        ∷ Call.plugin_setup "log"
        ∷ use_handler Handler.ip_acl
        ∷ use_handler Handler.token_bucket
        ∷ [])
unfolding middleware_calls
middleware_order = refl

abbrev started_with : Option (List Call) → Server
started_with none = first_server old []
started_with (some calls) = first_server old calls

abbrev refreshed_with : Option (List Call) → Server → Server
refreshed_with none s = s
refreshed_with (some calls) s = with_engine new calls s

abbrev after : Server
unfolding middleware_calls
after = refreshed_with (middleware_calls new) (started_with (middleware_calls old))

after_new : run old (new ∷ []) ≡ some after
unfolding run after
after_new = refl

run-listening_example :
    (calls : List Call) × (middleware_calls old ≡ some calls)
    × (listening_calls after ≡ some (calls ++ route_calls old))
    × (after.balancer ≡ balancer_for new)
    × (after.health_rules ≡ new.rules)
run-listening_example = run-listening old (new ∷ []) after after_new

run_iff_example :
    ((t : Server) × (run old (new ∷ unknown ∷ []) ≡ some t))
    ↔ (HasRoutes old × All CanSetUp (old ∷ new ∷ unknown ∷ []))
run_iff_example = run_iff old (new ∷ unknown ∷ [])

-- An unknown algorithm in a later configuration ends the process.
unknown_exits : run old (new ∷ unknown ∷ []) ≡ none
unfolding run
unknown_exits = refl

-- So does a path with a special character, which the engine "gin" does not serve.
abbrev regex : Config
regex = config (("/a/.*", rules "http://a") ∷ []) "token_bucket"

regex_exits : run old (new ∷ regex ∷ []) ≡ none
unfolding run
regex_exits = refl

-- A refresh with these configurations reads the configuration, so three updates may stop the gateway.
reads_three : config_reads old ≡ 3
unfolding config_reads
reads_three = refl

-- The cache has a response, and the access lists would refuse the client.
abbrev hit_and_refused : Handler → Bool
hit_and_refused Handler.cache = true
hit_and_refused Handler.ip_acl = true
hit_and_refused h = false

handlers_run-cache_hit_example :
    handlers_run hit_and_refused (
      use_handler Handler.recovery
      ∷ use_handler Handler.request_metrics
      ∷ use_handler Handler.cache
      ∷ Call.plugin_setup "log"
      ∷ use_handler Handler.ip_acl
      ∷ use_handler Handler.token_bucket
      ∷ [])
    ≡ Handler.recovery ∷ Handler.request_metrics ∷ Handler.cache ∷ []
handlers_run-cache_hit_example =
    handlers_run-cache_hit old
      (use_handler Handler.recovery
        ∷ use_handler Handler.request_metrics
        ∷ use_handler Handler.cache
        ∷ Call.plugin_setup "log"
        ∷ use_handler Handler.ip_acl
        ∷ use_handler Handler.token_bucket
        ∷ [])
      middleware_order hit_and_refused refl refl refl
