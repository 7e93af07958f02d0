-- ===== src/Traffic/Breaker/Middleware/Tests.antt =====
-- Two routes behind the breaker: one fails, and the gauge of the other shows it.
use mini_gateway.Common.{◌≡◌, ◌++◌, String, true, [], ◌∷◌, some, Dict, lookup, refl}
use mini_gateway.Config.{RoutingRules}
use mini_gateway.Traffic.Breaker.{new_window}
use mini_gateway.Traffic.Breaker.Middleware.{
  BreakerConfig, Breakers, Circuit, ran, fell_back, Request, configure_commands, new_breakers,
  serve_all,
}
use mini_gateway.Traffic.Breaker.Middleware.Gauges.{error_rates-all_routes}

abbrev cfg : BreakerConfig
cfg = record {
  middleware = true;
  enabled = true;
  error_percent = 50;
  timeout = 1000;
  min_requests = 20;
  sleep_window = 5000;
  max_concurrent = 100;
  window_duration = 10;
}

abbrev rules : Dict RoutingRules
rules = ("/a", []) ∷ ("/b", []) ∷ []

abbrev breakers : Breakers
unfolding configure_commands new_window
breakers = record {
  commands = configure_commands cfg rules [];
  window = new_window 10000000000;
  error_rates = [];
  latencies = [];
}

made : new_breakers cfg rules ≡ some breakers
unfolding new_breakers breakers
made = refl

abbrev request : String → Circuit → Request
request path circuit = record { path = path; circuit = circuit; started = 1; ended = 3; now = 3 }

error_rates-all_routes_example :
    lookup "/b"
      (serve_all
        ((request "/a" fell_back ∷ []) ++ request "/b" (ran 200) ∷ [])
        breakers).error_rates
    ≡ some (1, 2)
unfolding breakers new_window
error_rates-all_routes_example =
    error_rates-all_routes (request "/a" fell_back ∷ []) (request "/b" (ran 200)) breakers refl
