-- ===== src/Cache.antt =====
-- internal/middleware/cache.go with the cache of health_checker.go: responses kept in Redis. The three
-- commands are a record; that an entry expires is a change of the store between two requests. The
-- count of hits by target is Health's.
pub mod Replay
pub mod Client
mod Tests
use Prim.Native.String.{◌++◌ as str_append}
use mini_gateway.Common.{
  ℕ, String, Bool, true, false, List, [], ◌∷◌, Option, none, some, ltb, ◌==◌, str_eq, if◌then◌else◌,
}
use mini_gateway.Common.Int.{ℤ, pos, ltb_ℤ}
use mini_gateway.Config.{CachingRule, get_cache_rule_by_path}

-- INCR with EXPIRE as one script, GET, SET. A failed read is a miss and a failed script counts 0.
pub record Redis (S : Type 0) : Type 0 where
  pub incr : S → String → ℕ × S
  pub get : S → String → Option String
  pub set : S → String → String → S

abbrev pub cache_key : String → String → String
cache_key method path = str_append "mg:cache:" (str_append method (str_append ":" path))

abbrev pub req_count_key : String → String
req_count_key path = str_append "mg:cache:req_count:" path

-- What the handlers after the middleware answer: a status, and the bytes they wrote, if they wrote.
pub record Downstream : Type 0 where
  pub status : ℕ
  pub written : Option String

pub data Response : Type 0 where
  cached : String → Response
  forwarded : Downstream → Response

-- `writer.body.String()`; a nil `*bytes.Buffer` prints as "<nil>".
unfoldable pub body_text : Option String → String
body_text none = "<nil>"
body_text (some text) = text

module _ {S : Type 0} (redis : Redis S) where
  abbrev store_response : String → Downstream → S → S
  unfolding body_text
  store_response key d s = if d.status == 200 then redis.set s key (body_text d.written) else s

  -- After the request was counted.
  unfoldable pub serve_counted :
      CachingRule → String → ℕ → Option String → Downstream → S → Response × S
  unfolding store_response
  serve_counted rule key count (some content) d s = (cached content, s)
  serve_counted rule key count none d s =
      if ltb_ℤ (pos count) rule.threshold
      then (forwarded d, s)
      else (forwarded d, store_response key d s)

  unfoldable pub serve_ruled : Option CachingRule → String → String → Downstream → S → Response × S
  unfolding serve_counted
  serve_ruled none method path d s = (forwarded d, s)
  serve_ruled (some rule) method path d s =
      if str_eq rule.method method
      then (let (count, s') = redis.incr s (req_count_key path) in
          let key = cache_key method path in serve_counted rule key count (redis.get s' key) d s')
      else (forwarded d, s)

  unfoldable pub cache_middleware :
      Bool → List CachingRule → String → String → Downstream → S → Response × S
  unfolding serve_ruled get_cache_rule_by_path
  cache_middleware enabled rules method path d s =
      if enabled
      then serve_ruled (get_cache_rule_by_path rules path) method path d s
      else (forwarded d, s)
