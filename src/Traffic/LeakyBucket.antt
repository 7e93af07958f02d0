-- ===== src/Traffic/LeakyBucket.antt =====
-- internal/core/traffic/leaky_bucket.go. A limiter's channel is the number of its entries, and each
-- tick of its goroutine is a step of its own. A panic of the goroutine ends the process.
pub mod Bounds
pub mod Faults
mod Tests
use mini_gateway.Common.{
  ℕ, zero, suc, ◌+◌, ◌-◌, ◌/◌, String, Bool, true, false, List, [], ◌∷◌, Option, none, some, Dict,
  lookup, insert, Outcome, returns, panics, ◌>>=◌, ◌==◌, ltb, if◌then◌else◌,
}
use mini_gateway.Traffic.{RateLimit, Dimension, Verdict, passed, rejected}

pub record Limiter : Type 0 where
  pub capacity : ℕ
  pub rate : ℕ
  pub queued : ℕ

-- The ticker's period in nanoseconds; a ticker of period 0 panics.
abbrev pub period : ℕ → ℕ
period rate = 1000000000 / rate

unfoldable pub new_limiter : ℕ → ℕ → Outcome Limiter
new_limiter qps burst =
    if qps == 0
    then panics
    else if period qps == 0
    then panics
    else returns record { capacity = burst; rate = qps; queued = 0 }

unfoldable pub allow : Limiter → Bool × Limiter
allow l = if ltb l.queued l.capacity then (true, record l { queued = suc l.queued }) else (false, l)

-- One tick of `startLeak`.
unfoldable pub leak : Limiter → Limiter
leak l = if ltb 0 l.queued then record l { queued = l.queued - 1 } else l

pub record Buckets : Type 0 where
  pub global_limiter : Option Limiter
  pub ip_limiters : Dict Limiter
  pub route_limiters : Dict Limiter

-- Without rate limits there is no global limiter.
unfoldable pub new_buckets : RateLimit → Outcome Buckets
unfolding new_limiter
new_buckets cfg =
    if cfg.enabled
    then (new_limiter cfg.qps cfg.burst >>= λ l.
        returns record { global_limiter = some l; ip_limiters = []; route_limiters = [] })
    else returns record { global_limiter = none; ip_limiters = []; route_limiters = [] }

abbrev found_or_new : Option Limiter → ℕ → ℕ → Outcome Limiter
unfolding new_limiter
found_or_new (some l) qps burst = returns l
found_or_new none qps burst = new_limiter qps burst

-- The limiter of a key, made when it is missing, is asked; the answer and the map after it.
unfoldable pub allow_key : String → ℕ → ℕ → Dict Limiter → Outcome (Bool × Dict Limiter)
unfolding lookup found_or_new allow insert
allow_key key qps burst limiters = (found_or_new (lookup key limiters) qps burst) >>= λ l.
    returns ((allow l).0, insert key (allow l).1 limiters)

unfoldable pub allow_global : Option Limiter → Bool × Option Limiter
unfolding allow
allow_global none = (true, none)
allow_global (some l) = ((allow l).0, some (allow l).1)

unfoldable pub check_route : RateLimit → Buckets → String → Outcome (Verdict × Buckets)
unfolding allow_key
check_route cfg b path = (allow_key path cfg.qps cfg.burst b.route_limiters) >>= λ r. returns (
  if r.0 then passed else rejected Dimension.route path cfg.qps cfg.burst,
  record b { route_limiters = r.1 },
)

unfoldable pub check_ip : RateLimit → Buckets → String → String → Outcome (Verdict × Buckets)
unfolding allow_key check_route
check_ip cfg b client_ip path =
    (allow_key client_ip (cfg.qps / 2) (cfg.burst / 2) b.ip_limiters) >>= λ r.
    (let b' : Buckets = record b { ip_limiters = r.1 } in
      if r.0
      then check_route cfg b' path
      else returns (rejected Dimension.ip client_ip (cfg.qps / 2) (cfg.burst / 2), b'))

unfoldable pub check_global : RateLimit → Buckets → String → String → Outcome (Verdict × Buckets)
unfolding allow_global check_ip
check_global cfg b client_ip path =
    let asked = allow_global b.global_limiter in
    let b' : Buckets = record b { global_limiter = asked.1 } in
    if asked.0
    then check_ip cfg b' client_ip path
    else returns (rejected Dimension.global "" cfg.qps cfg.burst, b')

unfoldable pub handle : RateLimit → Buckets → String → String → Outcome (Verdict × Buckets)
unfolding check_global
handle cfg b client_ip path =
    if cfg.enabled then check_global cfg b client_ip path else returns (passed, b)
