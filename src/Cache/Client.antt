-- ===== src/Cache/Client.antt =====
-- pkg/cache/redis.go: what the package makes of the answers of Redis. The client's commands are a record, each of
-- which may fail; the package's variable may still be nil.
pub mod Increments
pub mod Tests
use mini_gateway.Common.{
  ℕ, String, Bool, true, false, List, [], ◌∷◌, map, Option, none, some, Outcome, returns, panics,
  ◌>>=◌, ◌==◌, if◌then◌else◌,
}
use mini_gateway.Common.Int.{ℤ, pos}
use mini_gateway.Cache.{cache_key, req_count_key}

-- GET finds a text, or nothing (`redis.Nil`), or fails.
pub data GetReply : Type 0 where
  found : String → GetReply
  missing failed : GetReply

-- An entry of the answer of MGET: nil, a text, or a value of another type.
pub data MgetReply : Type 0 where
  nil : MgetReply
  text : String → MgetReply
  other : MgetReply

pub record Commands (S : Type 0) : Type 0 where
  pub get : S → String → GetReply
  pub set : S → String → String → ℕ → Option S
  pub incr : S → String → Option (ℕ × S)
  pub expire : S → String → ℕ → Option S
  pub del : S → String → Option S
  pub mget : S → List String → Option (List MgetReply)

pub record PathCount : Type 0 where
  pub path : String
  pub count : ℤ

abbrev content_of : GetReply → Option String
content_of (found content) = some content
content_of missing = none
content_of failed = none

-- Whether a write succeeded, and the store after it.
abbrev written {ℓ} : {S : Type ℓ} → S → Option S → Bool × S
written s none = (false, s)
written s (some s') = (true, s')

module _ {S : Type 0} where
  unfoldable pub check_cache : Option (Commands S) → String → String → S → Option String
  check_cache none method path s = none
  check_cache (some client) method path s = content_of (client.get s (cache_key method path))

  unfoldable pub set_cache : Option (Commands S) → String → String → String → ℕ → S → Bool × S
  set_cache none method path content ttl s = (false, s)
  set_cache (some client) method path content ttl s =
      written s (client.set s (cache_key method path) content ttl)

  abbrev counted : Commands S → String → ℕ → S → Option (ℕ × S) → ℕ × S
  counted client key ttl s none = (0, s)
  counted client key ttl s (some (count, s')) =
      if count == 1 then (count, (written s' (client.expire s' key ttl)).1) else (count, s')

  unfoldable pub increment_request_count : Option (Commands S) → String → ℕ → S → ℕ × S
  increment_request_count none path ttl s = (0, s)
  increment_request_count (some client) path ttl s =
      counted client (req_count_key path) ttl s (client.incr s (req_count_key path))

  unfoldable pub clear_request_count : Option (Commands S) → String → S → Bool × S
  clear_request_count none path s = (false, s)
  clear_request_count (some client) path s = written s (client.del s (req_count_key path))

  unfoldable pub clear_method_count : Option (Commands S) → String → String → S → Bool × S
  clear_method_count none method path s = (false, s)
  clear_method_count (some client) method path s = written s (client.del s (cache_key method path))

-- `strconv.ParseInt` is a parameter.
module _ (parse_int : String → Option ℤ) where
  abbrev or_zero : Option ℤ → ℤ
  or_zero none = pos 0
  or_zero (some n) = n

  abbrev pub value_of : MgetReply → ℤ
  value_of nil = pos 0
  value_of (text t) = or_zero (parse_int t)
  value_of other = pos 0

  -- The loop over the answers writes into a slice as long as the paths: one answer too many panics, and
  -- where one is missing the zero value stays.
  unfoldable pub fill : List String → List MgetReply → Outcome (List PathCount)
  fill [] [] = returns []
  fill [] (reply ∷ replies) = panics
  fill (path ∷ paths) [] =
      fill paths [] >>= λ counts. returns (record { path = ""; count = pos 0 } ∷ counts)
  fill (path ∷ paths) (reply ∷ replies) = fill paths replies >>= λ counts.
      returns (record { path = path; count = value_of reply } ∷ counts)

  abbrev filled : List String → Option (List MgetReply) → Outcome (Option (List PathCount))
  unfolding fill
  filled paths none = returns none
  filled paths (some replies) = fill paths replies >>= λ counts. returns (some counts)

  -- `none` is an error.
  unfoldable pub batch_get_path_req_count :
      {S : Type 0} → Option (Commands S) → List String → S → Outcome (Option (List PathCount))
  unfolding filled
  batch_get_path_req_count none paths s = returns none
  batch_get_path_req_count (some client) paths s =
      filled paths (client.mget s (map req_count_key paths))
