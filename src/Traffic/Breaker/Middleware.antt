-- ===== src/Traffic/Breaker/Middleware.antt =====
-- internal/core/traffic/breaker.go: the middleware around Hystrix, and the handler that switches a breaker
-- off. What Hystrix decides for a request is an argument, and `int(ErrorRate * 100)` is a number of the
-- configuration. Hystrix's own settings are kept by path, as it was last told.
pub mod Gauges
mod Tests
use mini_gateway.Common.{
  ℕ, ◌-◌, ◌*◌, String, Bool, ◌&&◌, List, [], ◌∷◌, Option, none, some, Dict, lookup, insert, ltb,
  str_eq, if◌then◌else◌,
}
use mini_gateway.Config.{RoutingRules}
use mini_gateway.Traffic.Breaker.{
  RequestStat, TimeSlidingWindow, new_window, update, error_rate, avg_latency,
}

pub record BreakerConfig : Type 0 where
  pub middleware : Bool
  pub enabled : Bool
  pub error_percent : ℕ
  pub timeout : ℕ
  pub min_requests : ℕ
  pub sleep_window : ℕ
  pub max_concurrent : ℕ
  pub window_duration : ℕ

-- `hystrix.CommandConfig`.
pub record CommandConfig : Type 0 where
  pub timeout : ℕ
  pub max_concurrent_requests : ℕ
  pub request_volume_threshold : ℕ
  pub sleep_window : ℕ
  pub error_percent_threshold : ℕ

-- `error_rates` are the values of a gauge with the label path, as numerator and denominator.
pub record Breakers : Type 0 where
  pub commands : Dict CommandConfig
  pub window : TimeSlidingWindow
  pub error_rates : Dict (ℕ × ℕ)
  pub latencies : Dict ℕ

abbrev pub command_with : BreakerConfig → ℕ → CommandConfig
command_with cfg threshold = record {
  timeout = cfg.timeout;
  max_concurrent_requests = cfg.max_concurrent;
  request_volume_threshold = cfg.min_requests;
  sleep_window = cfg.sleep_window;
  error_percent_threshold = threshold;
}

unfoldable pub configure_commands :
    BreakerConfig → Dict RoutingRules → Dict CommandConfig → Dict CommandConfig
unfolding insert
configure_commands cfg [] commands = commands
configure_commands cfg (route ∷ rules) commands =
    configure_commands cfg rules (insert route.0 (command_with cfg cfg.error_percent) commands)

-- `Breaker()`; without a breaker the middleware only goes on. A duration of seconds in nanoseconds.
unfoldable pub new_breakers : BreakerConfig → Dict RoutingRules → Option Breakers
unfolding configure_commands new_window
new_breakers cfg rules =
    if cfg.middleware && cfg.enabled
    then some (record {
      commands = configure_commands cfg rules [];
      window = new_window (cfg.window_duration * 1000000000);
      error_rates = [];
      latencies = [];
    })
    else none

-- How `hystrix.Do` ends: the next handlers ran, with a status, or the fallback answered 503. Both give no
-- error.
pub data Circuit : Type 0 where
  ran : ℕ → Circuit
  fell_back : Circuit

abbrev pub status_of : Circuit → ℕ
status_of (ran status) = status
status_of fell_back = 503

pub record Request : Type 0 where
  pub path : String
  pub circuit : Circuit
  pub started : ℕ
  pub ended : ℕ
  pub now : ℕ

abbrev pub stat_of : Request → RequestStat
stat_of r = record {
  success = ltb (status_of r.circuit) 400;
  latency = r.ended - r.started;
  timestamp = r.now;
}

unfoldable pub serve : Request → Breakers → ℕ × Breakers
unfolding update insert error_rate avg_latency
serve r b =
    let window = update (stat_of r) b.window in
    (
      status_of r.circuit,
      record b {
        window = window;
        error_rates = insert r.path (error_rate window) b.error_rates;
        latencies = insert r.path (avg_latency window) b.latencies;
      },
    )

-- Requests one after the other, with no clean-up of the window between them.
unfoldable pub serve_all : List Request → Breakers → Breakers
unfolding serve
serve_all [] b = b
serve_all (r ∷ rs) b = serve_all rs (serve r b).1

abbrev is_routed : Option RoutingRules → Bool
is_routed none = Bool.false
is_routed (some rules) = Bool.true

-- The handler once the body is read; `none` is a body without a path.
unfoldable pub disable_path :
    BreakerConfig → Dict RoutingRules → Option String → Breakers → ℕ × Breakers
unfolding lookup insert
disable_path cfg rules none b = (400, b)
disable_path cfg rules (some path) b =
    if is_routed (lookup path rules)
    then (
      200,
      record b {
        commands = insert path (command_with cfg 0) b.commands;
        error_rates = insert path (0, 1) b.error_rates;
      },
    )
    else (404, b)

-- `DisableBreakerHandler`: the path of a JSON body is required, so it is not the empty text.
unfoldable pub disable_breaker_handler :
    BreakerConfig → Dict RoutingRules → Option String → Breakers → ℕ × Breakers
unfolding disable_path
disable_breaker_handler cfg rules none b = disable_path cfg rules none b
disable_breaker_handler cfg rules (some path) b =
    disable_path cfg rules (if str_eq path "" then none else some path) b
