-- ===== src/Traffic/TokenBucket.antt =====
-- internal/core/traffic/token_bucket.go. A limiter is one of go.uber.org/ratelimit, a parameter: how one
-- is made from a rate and a slack, which may panic, and what a `Take` at a clock reading answers.
pub mod Limits
mod Tests
use mini_gateway.Common.{
  ℕ, ◌-◌, ◌/◌, String, List, [], ◌∷◌, Option, none, some, Dict, lookup, insert, Outcome, returns,
  panics, ◌>>=◌, ltb, if◌then◌else◌,
}
use mini_gateway.Traffic.{RateLimit, Dimension}

pub record Ratelimit (L : Type 0) : Type 0 where
  pub new : ℕ → ℕ → Outcome L
  pub take : L → ℕ → ℕ × L

pub record TokenBucket (L : Type 0) : Type 0 where
  pub global_limiter : Option L
  pub ip_limiters : Dict L
  pub route_limiters : Dict L

-- A check reads the clock, and `Take` reads it again.
pub record Reading : Type 0 where
  pub before : ℕ
  pub inside : ℕ

pub record Request : Type 0 where
  pub client_ip : String
  pub path : String
  pub global_reading : Reading
  pub ip_reading : Reading
  pub route_reading : Reading

-- The next handler, or 429 with the dimension, the key and the wait.
pub data Verdict : Type 0 where
  passed : Verdict
  rejected : Dimension → String → ℕ → Verdict

module _ {L : Type 0} (limiter : Ratelimit L) where
  unfoldable pub new_token_bucket : RateLimit → Outcome (TokenBucket L)
  new_token_bucket cfg =
      if cfg.enabled
      then (limiter.new cfg.qps cfg.burst >>= λ l.
          returns record { global_limiter = some l; ip_limiters = []; route_limiters = [] })
      else returns record { global_limiter = none; ip_limiters = []; route_limiters = [] }

  -- `checkLimit`: what is taken is waited for if it lies after the first reading.
  unfoldable pub check_limit : Dimension → String → Reading → L → Verdict × L
  check_limit dimension key reading l =
      let (taken, l') = limiter.take l reading.inside in
      if ltb reading.before taken
      then (rejected dimension key (taken - reading.before), l')
      else (passed, l')

  abbrev found_or_new : Option L → ℕ → ℕ → Outcome L
  found_or_new (some l) qps burst = returns l
  found_or_new none qps burst = limiter.new qps burst

  -- `getOrCreateLimiter` and the check of its limiter; the map after both.
  unfoldable pub check_key :
      Dimension → String → ℕ → ℕ → Reading → Dict L → Outcome (Verdict × Dict L)
  unfolding lookup insert check_limit
  check_key dimension key qps burst reading limiters =
      found_or_new (lookup key limiters) qps burst >>= λ l.
      (let (verdict, l') = check_limit dimension key reading l in
        returns (verdict, insert key l' limiters))

  unfoldable pub check_global : Reading → Option L → Verdict × Option L
  unfolding check_limit
  check_global reading none = (passed, none)
  check_global reading (some l) =
      let (verdict, l') = check_limit Dimension.global "" reading l in (verdict, some l')

  -- Go on with the next check, or end with the rejection.
  abbrev after_passing :
      Verdict × TokenBucket L
      → (TokenBucket L → Outcome (Verdict × TokenBucket L))
      → Outcome (Verdict × TokenBucket L)
  after_passing (passed, b) f = f b
  after_passing (rejected dimension key wait, b) f = returns (rejected dimension key wait, b)

  unfoldable pub check_route :
      RateLimit → Request → TokenBucket L → Outcome (Verdict × TokenBucket L)
  unfolding check_key
  check_route cfg r b =
      check_key Dimension.route r.path cfg.qps cfg.burst r.route_reading b.route_limiters >>= λ c.
      returns (c.0, record b { route_limiters = c.1 })

  unfoldable pub check_ip : RateLimit → Request → TokenBucket L → Outcome (Verdict × TokenBucket L)
  unfolding check_key check_route
  check_ip cfg r b =
      check_key Dimension.ip r.client_ip (cfg.qps / 2) (cfg.burst / 2) r.ip_reading b.ip_limiters
      >>= λ c. after_passing (c.0, record b { ip_limiters = c.1 }) (check_route cfg r)

  unfoldable pub check_all : RateLimit → Request → TokenBucket L → Outcome (Verdict × TokenBucket L)
  unfolding check_global check_ip
  check_all cfg r b =
      let (verdict, l) = check_global r.global_reading b.global_limiter in
      after_passing (verdict, record b { global_limiter = l }) (check_ip cfg r)

  unfoldable pub handle : RateLimit → Request → TokenBucket L → Outcome (Verdict × TokenBucket L)
  unfolding check_all
  handle cfg r b = if cfg.enabled then check_all cfg r b else returns (passed, b)

  -- Requests one after the other; the verdicts and the buckets at the end.
  unfoldable pub run :
      RateLimit → List Request → TokenBucket L → Outcome (List Verdict × TokenBucket L)
  unfolding handle
  run cfg [] b = returns ([], b)
  run cfg (r ∷ rs) b = handle cfg r b >>= λ c. (run cfg rs c.1 >>= λ d. returns (c.0 ∷ d.0, d.1))
