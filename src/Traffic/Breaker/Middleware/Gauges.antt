-- ===== src/Traffic/Breaker/Middleware/Gauges.antt =====
-- What the gauges of the breaker show, and what switching a breaker off changes.
use mini_gateway.Common.{
  ℕ, ◌+◌, ◌<◌, ◌≡◌, String, false, List, [], ◌∷◌, ◌++◌, map, none, some, Dict, lookup,
  lookup-insert, lookup-insert_self, length, ltb, str_eq, append_assoc, append-nil, length-map,
  length-append, map-append, if◌then◌else◌, refl, sym, ap, ◌∙◌, arith,
}
use mini_gateway.Config.{RoutingRules}
use mini_gateway.Traffic.Breaker.{TimeSlidingWindow, update, error_rate, count_failed}
use mini_gateway.Traffic.Breaker.Middleware.{
  BreakerConfig, Breakers, command_with, status_of, Request, stat_of, serve, serve_all,
  disable_path, disable_breaker_handler,
}

serve_all-window :
    (rs : List Request) (b : Breakers)
    → (serve_all rs b).window.requests ≡ b.window.requests ++ map stat_of rs
unfolding serve_all serve update
serve_all-window [] b = sym (append-nil b.window.requests)
serve_all-window (r ∷ rs) b =
    serve_all-window rs (serve r b).1
    ∙ append_assoc b.window.requests (stat_of r ∷ []) (map stat_of rs)

serve_all-append :
    (rs ss : List Request) (b : Breakers) → serve_all (rs ++ ss) b ≡ serve_all ss (serve_all rs b)
unfolding serve_all
serve_all-append [] ss b = refl
serve_all-append (r ∷ rs) ss b = serve_all-append rs ss (serve r b).1

-- The requests that ended with a status of 400 or more.
abbrev pub failures : List Request → ℕ
failures [] = 0
failures (r ∷ rs) = (if ltb (status_of r.circuit) 400 then 0 else 1) + failures rs

count_failed-failures : (rs : List Request) → count_failed (map stat_of rs) ≡ failures rs
unfolding count_failed
count_failed-failures [] = refl
count_failed-failures (r ∷ rs) =
    ap (λ n. (if ltb (status_of r.circuit) 400 then 0 else 1) + n) (count_failed-failures rs)

error_rate-some :
    (sw : TimeSlidingWindow)
    → 0 < length sw.requests
    → error_rate sw ≡ (count_failed sw.requests, length sw.requests)
unfolding error_rate
error_rate-some sw h = ground arith

-- The rate of the window in which these requests were recorded.
error_rate-requests :
    (rs : List Request) (last : Request) (sw : TimeSlidingWindow)
    → sw.requests ≡ map stat_of (rs ++ last ∷ [])
    → error_rate sw ≡ (failures (rs ++ last ∷ []), length rs + 1)
error_rate-requests rs last sw e =
    let many : length sw.requests ≡ length rs + 1 =
      ap length e ∙ length-map stat_of (rs ++ last ∷ []) ∙ length-append rs (last ∷ []) in
    error_rate-some sw (omega (arith, many)) ∙ λ i.
    ((ap count_failed e ∙ count_failed-failures (rs ++ last ∷ [])) i, many i)

-- The gauge of a route is not about that route. After requests on any routes, with no clean-up of the
-- window between them, the error rate that the gauge shows for the route of the last request is that
-- of all the requests: those that ended with 400 or more, on whatever route, over their number.
pub error_rates-all_routes :
    (rs : List Request) (last : Request) (b : Breakers)
    → b.window.requests ≡ []
    → lookup last.path (serve_all (rs ++ last ∷ []) b).error_rates
      ≡ some (failures (rs ++ last ∷ []), length rs + 1)
unfolding serve_all serve update
error_rates-all_routes rs last b empty =
    let s = serve_all rs b in
    let recorded : s.window.requests ≡ map stat_of rs =
      serve_all-window rs b ∙ ap (λ l. l ++ map stat_of rs) empty in
    let window = update (stat_of last) s.window in
    let all : window.requests ≡ map stat_of (rs ++ last ∷ []) =
      ap (λ l. l ++ stat_of last ∷ []) recorded ∙ sym (map-append stat_of rs (last ∷ [])) in
    ap (λ t. lookup last.path t.error_rates) (serve_all-append rs (last ∷ []) b)
    ∙ lookup-insert_self last.path (error_rate window) s.error_rates
    ∙ ap some (error_rate-requests rs last window all)

-- Switching a breaker off, at a body that names a path: 404 with no change if the path is not routed;
-- else 200, Hystrix is told the configured settings for this path, with a threshold of 0, and nothing
-- for any other path, and the gauge of this path alone shows 0. The window stays.
pub disable_breaker_handler_lem :
    (cfg : BreakerConfig) (rules : Dict RoutingRules) (path : String) (b : Breakers)
    → str_eq path "" ≡ false
    → (lookup path rules ≡ none → disable_breaker_handler cfg rules (some path) b ≡ (404, b))
      × ((path_rules : RoutingRules)
          → lookup path rules ≡ some path_rules
          → ((disable_breaker_handler cfg rules (some path) b).0 ≡ 200)
            × ((other : String)
                → (lookup other (disable_breaker_handler cfg rules (some path) b).1.commands ≡ (
                    if str_eq path other
                    then some (command_with cfg 0)
                    else lookup other b.commands))
                  × (lookup other (disable_breaker_handler cfg rules (some path) b).1.error_rates
                      ≡ (if str_eq path other then some (0, 1) else lookup other b.error_rates)))
            × ((disable_breaker_handler cfg rules (some path) b).1.window ≡ b.window))
unfolding disable_breaker_handler disable_path
disable_breaker_handler_lem cfg rules path b named = (
  λ e. rw (named, e) refl,
  λ path_rules e.
      rw (named, e)
        (
          refl,
          λ other. (
            lookup-insert path other (command_with cfg 0) b.commands,
            lookup-insert path other (0, 1) b.error_rates,
          ),
          refl,
        ),
)
