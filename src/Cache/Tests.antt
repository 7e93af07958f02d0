-- ===== src/Cache/Tests.antt =====
-- A store that is a function from keys to texts, and a counter that stands at 5.
use mini_gateway.Common.{
  ◌≡◌, refl, String, true, [], ◌∷◌, Option, none, some, str_eq, eq_refl, if◌then◌else◌,
}
use mini_gateway.Common.Int.{pos}
use mini_gateway.Config.{CachingRule, get_cache_rule_by_path}
use mini_gateway.Cache.{Redis, Downstream, cached, forwarded, body_text, cache_middleware}
use mini_gateway.Cache.Replay.{IsRedis, cache_middleware-replay}

abbrev Store : Type 0
Store = String → Option String

abbrev store : Redis Store
store = record {
  incr = λ s key. (5, s);
  get = λ s key. s key;
  set = λ s key value. λ other. if str_eq key other then some value else s other;
}

store-IsRedis : IsRedis store
store-IsRedis = record {
  get-set = λ s key value. (let self : str_eq key key ≡ true = eq_refl key in rw self refl);
  get-incr = λ s counter key apart. refl;
}

abbrev rule : CachingRule
rule = record { path = "/a"; method = "GET"; threshold = pos 3; ttl = pos 60 }

ruled : get_cache_rule_by_path (rule ∷ []) "/a" ≡ some rule
unfolding get_cache_rule_by_path
ruled = refl

abbrev silent : Downstream
silent = record { status = 200; written = none }

abbrev hello : Downstream
hello = record { status = 200; written = some "hello" }

abbrev empty : Store
empty key = none

cache_middleware-replay_example :
    ((cache_middleware store true (rule ∷ []) "GET" "/a" silent empty).0 ≡ forwarded silent)
    × ((cache_middleware store true
          (rule ∷ [])
          "GET"
          "/a"
          hello
          (cache_middleware store true (rule ∷ []) "GET" "/a" silent empty).1).0
        ≡ cached (body_text silent.written))
cache_middleware-replay_example =
    cache_middleware-replay store store-IsRedis (rule ∷ []) rule "GET" "/a" ruled refl refl silent
      hello empty refl refl refl

-- What a handler that wrote nothing leaves in the cache.
nothing_written : body_text silent.written ≡ "<nil>"
unfolding body_text
nothing_written = refl
