-- ===== src/Gateway/Server/Order.antt =====
-- Which middleware sees a request. gin runs the handlers of an engine in the order in which they were added,
-- until one of them aborts the request.
use mini_gateway.Common.{
  ◌≡◌, refl, sym, ap, ◌∙◌, Bool, true, false, List, [], ◌∷◌, some, Option-cases, inl, inr,
  none-ne-some, some-injective, if◌then◌else◌,
}
use mini_gateway.Gateway.Server.{
  Config, Call, use_handler, plugin_setup, route, dynamic, Handler, limiter_calls, with_limiter,
  middleware_calls,
}

-- The handlers that run for a request, when `aborts` tells which of them would abort it.
abbrev pub handlers_run : (Handler → Bool) → List Call → List Handler
handlers_run aborts [] = []
handlers_run aborts (use_handler h ∷ calls) =
    let rest = handlers_run aborts calls in if aborts h then h ∷ [] else h ∷ rest
handlers_run aborts (plugin_setup name ∷ calls) = handlers_run aborts calls
handlers_run aborts (route method path ∷ calls) = handlers_run aborts calls
handlers_run aborts (dynamic auth rules ∷ calls) = handlers_run aborts calls

-- A cached response is served before any check. With every configuration whose middleware is set up: when
-- the cache has a response and aborts the request, no other handler than the two of every engine has run
-- before it, and none runs after it, so the access lists, the injection filter, the rate limiter and the
-- breaker do not see the request, whether or not they would refuse it.
pub handlers_run-cache_hit :
    (cfg : Config) (calls : List Call)
    → middleware_calls cfg ≡ some calls
    → (aborts : Handler → Bool) → aborts Handler.recovery ≡ false
    → aborts Handler.request_metrics ≡ false
    → aborts Handler.cache ≡ true
    → handlers_run aborts calls ≡ Handler.recovery ∷ Handler.request_metrics ∷ Handler.cache ∷ []
unfolding middleware_calls
handlers_run-cache_hit cfg calls made aborts recovers measures hit =
    elim (Option-cases (limiter_calls cfg)) [
      | inl unknown ↦ absurd (none-ne-some (rw unknown at made))
      | inr (limiter, known) ↦
          (let order = some-injective (sym made ∙ ap (with_limiter cfg) known) in
            ap (handlers_run aborts) order ∙ rw (recovers, measures, hit) refl)
    ]
