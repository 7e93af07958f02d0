-- ===== src/Cache/Replay.antt =====
-- What the second of two like requests is answered.
use mini_gateway.Common.{
  ℕ, ◌≡◌, refl, String, true, false, List, none, some, ◌==◌, str_eq, Bool-cases, inl, inr,
}
use mini_gateway.Common.Int.{pos, ltb_ℤ}
use mini_gateway.Config.{CachingRule, get_cache_rule_by_path}
use mini_gateway.Cache.{
  Redis, cache_key, req_count_key, Downstream, cached, forwarded, body_text, store_response,
  serve_counted, serve_ruled, cache_middleware,
}

-- What Redis documents of the three commands.
pub record IsRedis {S : Type 0} (redis : Redis S) : Type 0 where
  pub get-set : (s : S) (key value : String) → redis.get (redis.set s key value) key ≡ some value
  pub get-incr :
      (s : S) (counter key : String)
      → str_eq counter key ≡ false
      → redis.get (redis.incr s counter).1 key ≡ redis.get s key

module _ {S : Type 0} (redis : Redis S) (laws : IsRedis redis) (rules : List CachingRule)
    (rule : CachingRule) (method path : String)
    (ruled : get_cache_rule_by_path rules path ≡ some rule)
    (same_method : str_eq rule.method method ≡ true)
    (apart : str_eq (req_count_key path) (cache_key method path) ≡ false) where
  abbrev after_count : S → ℕ × S
  after_count s = redis.incr s (req_count_key path)

  ruled_lem :
      (d : Downstream) (s : S)
      → cache_middleware redis true rules method path d s
        ≡ serve_counted redis rule
            (cache_key method path)
            (after_count s).0
            (redis.get s (cache_key method path))
            d
            (after_count s).1
  unfolding cache_middleware serve_ruled
  ruled_lem d s =
      rw (ruled, same_method, laws.get-incr s (req_count_key path) (cache_key method path) apart)
        refl

  first_answer :
      (key : String) (n : ℕ) (d : Downstream) (s : S)
      → (serve_counted redis rule key n none d s).0 ≡ forwarded d
  unfolding serve_counted
  first_answer key n d s = elim (Bool-cases (ltb_ℤ (pos n) rule.threshold)) [
    | inl below ↦ rw below refl
    | inr reached ↦ rw reached refl
  ]

  first_store :
      (key : String) (n : ℕ) (d : Downstream) (s : S)
      → ltb_ℤ (pos n) rule.threshold ≡ false
      → (d.status == 200) ≡ true
      → (serve_counted redis rule key n none d s).1 ≡ redis.set s key (body_text d.written)
  unfolding serve_counted store_response
  first_store key n d s reached ok = rw (reached, ok) refl

  hit_lem :
      (d : Downstream) (s : S) (content : String)
      → redis.get s (cache_key method path) ≡ some content
      → (cache_middleware redis true rules method path d s).0 ≡ cached content
  unfolding serve_counted
  hit_lem d s content kept = rw (ruled_lem d s, kept) refl

  -- For a path and method with a cache rule and no response kept, when the requests counted have reached
  -- the rule's threshold and the handlers answer 200: this request gets their answer, and the next one
  -- is served what they wrote, or "<nil>" when they wrote nothing, whatever they would answer then.
  pub cache_middleware-replay :
      (d d' : Downstream) (s : S)
      → redis.get s (cache_key method path) ≡ none
      → ltb_ℤ (pos (after_count s).0) rule.threshold ≡ false
      → (d.status == 200) ≡ true
      → ((cache_middleware redis true rules method path d s).0 ≡ forwarded d)
        × ((cache_middleware redis true rules method path d'
              (cache_middleware redis true rules method path d s).1).0
            ≡ cached (body_text d.written))
  cache_middleware-replay d d' s missing reached ok =
      let key = cache_key method path in
      let (n, s') = after_count s in
      let stored = first_store key n d s' reached ok in
      let after : (cache_middleware redis true rules method path d s).1
          ≡ redis.set s' key (body_text d.written) =
        rw (ruled_lem d s, missing) stored in
      (
        rw (ruled_lem d s, missing) (first_answer key n d s'),
        rw after (
            hit_lem d' (redis.set s' key (body_text d.written)) (body_text d.written)
              (laws.get-set s' key (body_text d.written))),
      )
