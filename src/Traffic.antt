-- ===== src/Traffic.antt =====
-- internal/core/traffic: rate limits and the circuit breaker.
pub mod LeakyBucket
pub mod Breaker
pub mod TokenBucket
use mini_gateway.Common.{ℕ, String, Bool}

-- config.go, TrafficRateLimit, for numbers that are not negative.
pub record RateLimit : Type 0 where
  pub enabled : Bool
  pub qps : ℕ
  pub burst : ℕ

pub data Dimension : Type 0 where
  global ip route : Dimension

-- What a limiter's handler does with a request: the next handler, or 429 with the limit's numbers.
pub data Verdict : Type 0 where
  passed : Verdict
  rejected : Dimension → String → ℕ → ℕ → Verdict
